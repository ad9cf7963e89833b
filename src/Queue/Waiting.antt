-- ===== src/Queue/Waiting.antt =====
-- ffos/ota/include/utils/MutexQueue.h: the wait of Push for room.
use code_snippet.Common.{
  ℕ, ◌≡◌, ◌≢◌, refl, sym, ap, ◌∙◌, length, List, [], ◌∷◌, none, some, arith, true, false, ==_iff,
}
use code_snippet.Queue.Threads.{
  Pc, idle, push_locks, push_tests, push_waits, push_signals, pop_locks, front_locks, front_waits,
  unlocks, Shared, place_at, move, unlock, signalled, line, Choice, calls_push, calls_pop,
  calls_front, takes, runs, wakes_up, wait_fails, call, step, interleave,
}

-- No wait ends without a signal.
abbrev pub IsSignalled : Choice → Type 0
IsSignalled wakes_up = ⊥
IsSignalled wait_fails = ⊥
IsSignalled _ = Unit

abbrev pub AreSignalled : List (ℕ × Choice) → Type 0
AreSignalled [] = Unit
AreSignalled ((i, e) ∷ es) = IsSignalled e × AreSignalled es

module _ (i t : ℕ) where
  signalled-waits : (p : Pc) → p ≡ push_waits t → signalled p ≡ push_waits t
  signalled-waits (front_waits b) e = absurd (cc e)
  signalled-waits _ e = ground arith

  place_at-waits :
      (pc : ℕ → Pc) (k : ℕ) (p : Pc)
      → pc i ≡ push_waits t
      → (i ≡ k → p ≡ push_waits t)
      → place_at pc k p i ≡ push_waits t
  place_at-waits pc k p e h = ground (arith, (==_iff i k))

  signal-waits :
      (s : Shared) (k j : ℕ)
      → s.pc i ≡ push_waits t
      → i ≢ k
      → (move (move s j (signalled (s.pc j))) k (unlocks idle)).pc i ≡ push_waits t
  signal-waits s k j e h =
      place_at-waits (move s j (signalled (s.pc j))).pc k (unlocks idle)
        (place_at-waits s.pc j (signalled (s.pc j)) e
          (λ same. signalled-waits (s.pc j) (rw (sym same) e)))
        (λ same. absurd (h same))

  line-waits :
      (s : Shared) (k j : ℕ) (p : Pc)
      → s.pc i ≡ push_waits t
      → (i ≡ k → p ≡ push_waits t)
      → (line s k j p).pc i ≡ push_waits t
  unfolding line
  line-waits s k j idle e h = e
  line-waits s k j (push_waits n) e h = e
  line-waits s k j push_signals e h = signal-waits s k j e (λ same. cc (h same))
  line-waits s k j _ e h = ground arith

  call-waits :
      (s : Shared) (k : ℕ) (p q : Pc)
      → s.pc i ≡ push_waits t
      → (i ≡ k → q ≡ push_waits t)
      → (call s k p q).pc i ≡ push_waits t
  call-waits s k p idle e h = place_at-waits s.pc k p e (λ same. cc (h same))
  call-waits s k p _ e h = e

  pub step-waits :
      (s : Shared) (k : ℕ) (e : Choice)
      → IsSignalled e
      → s.pc i ≡ push_waits t
      → (step s k e).pc i ≡ push_waits t
  unfolding step
  step-waits s k (runs j) g h = line-waits s k j (s.pc k) h (λ same. rw (sym same) h)
  step-waits s k (calls_push n) g h =
      call-waits s k (push_locks n) (s.pc k) h (λ same. rw (sym same) h)
  step-waits s k calls_pop g h = call-waits s k pop_locks (s.pc k) h (λ same. rw (sym same) h)
  step-waits s k calls_front g h =
      call-waits s k (front_locks false) (s.pc k) h (λ same. rw (sym same) h)
  step-waits s k takes g h = call-waits s k (front_locks true) (s.pc k) h (λ same. rw (sym same) h)
  step-waits s k wakes_up g h = absurd g
  step-waits s k wait_fails g h = absurd g

  interleave-waits :
      (s : Shared) (es : List (ℕ × Choice))
      → AreSignalled es
      → s.pc i ≡ push_waits t
      → (interleave s es).pc i ≡ push_waits t
  unfolding interleave
  interleave-waits s [] g h = h
  interleave-waits s ((k, e) ∷ es) g h =
      interleave-waits (step s k e) es g.1 (step-waits s k e g.0 h)

  pub place_at_self : (pc : ℕ → Pc) (p : Pc) → place_at pc i p i ≡ p
  place_at_self pc p = rw ((==_iff i i).1 refl) refl

  module _ (s : Shared) where
    abbrev called : Shared
    called = move s i (push_locks t)

    abbrev locked : Shared
    locked = record called { owner = some i; pc = place_at called.pc i (push_tests t) }

    push_called : s.pc i ≡ idle → step s i (calls_push t) ≡ called
    unfolding step
    push_called e = ap (call s i (push_locks t)) e

    push_locked : s.owner ≡ none → step called i (runs 0) ≡ locked
    unfolding step line
    push_locked e = ap (line called i 0) (place_at_self s.pc (push_locks t)) ∙ rw e refl

    push_waiting :
        length s.inner_queue ≡ s.size → step locked i (runs 0) ≡ unlock locked i (push_waits t)
    unfolding step line
    push_waiting e =
        ap (line locked i 0) (place_at_self called.pc (push_tests t))
        ∙ rw ((==_iff (length s.inner_queue) s.size).1 e) refl

-- A thread between its calls calls Push on a full queue with a free lock, and its next two lines run.
-- Whatever the other threads do from then on, any number of calls of Pop and Front among it, the
-- thread stays in its wait, unless waits end without a signal: no operation signals m_condFull.
pub push_waits_forever :
    (s : Shared) (i t : ℕ) (es : List (ℕ × Choice))
    → s.pc i ≡ idle
    → s.owner ≡ none
    → length s.inner_queue ≡ s.size
    → AreSignalled es
    → (interleave s ((i, calls_push t) ∷ (i, runs 0) ∷ (i, runs 0) ∷ es)).pc i ≡ push_waits t
unfolding interleave
push_waits_forever s i t es between free full g =
    ap (λ (s' : Shared). (interleave s' es).pc i)
      (ap (λ (s' : Shared). step (step s' i (runs 0)) i (runs 0)) (push_called i t s between)
        ∙ ap (λ (s' : Shared). step s' i (runs 0)) (push_locked i t s free)
        ∙ push_waiting i t s full)
    ∙ interleave-waits i t (unlock (locked i t s) i (push_waits t)) es g
        (place_at_self i t (locked i t s).pc (push_waits t))
