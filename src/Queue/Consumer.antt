-- ===== src/Queue/Consumer.antt =====
-- ffos/ota/include/utils/MutexQueue.h: the plan of Queue/Plan, line by line and for whole runs.
use code_snippet.Common.{
  ℕ, ◌⊎◌, ◌≡◌, ◌≢◌, refl, sym, subst, ◌∙◌, inl, inr, List, [], ◌∷◌, ◌++◌, Bool, true, false, some,
  arith, ◌==◌, length, Bool-cases,
}
use code_snippet.Queue.Threads.{
  Pc, idle, push_locks, push_tests, push_waits, push_wakes, push_adds, push_signals, pop_locks,
  pop_tests, pop_removes, front_locks, front_tests, front_waits, front_wakes, front_reads, unlocks,
  undefined_front, undefined_pop, Shared, new_shared, move, signalled, line, Choice, calls_push,
  calls_pop, calls_front, takes, runs, wakes_up, wait_fails, call, step, interleave,
}
use code_snippet.Queue.Exclusion.{IsOutside, Knows, Inv}
use code_snippet.Queue.Lines.{outside_or, append_one-ne-nil, step-Inv, new_shared-Inv}
use code_snippet.Queue.Plan.{
  ArePlanned, IsPlanned, Role, Follows-Role, Plan, go-Plan, move-Plan, unlock-Plan, lock-Plan,
}

module _ (c : ℕ) where
  signalled-Role :
      (ts : List ℕ) (k : ℕ) (p : Pc) → ts ≢ [] → Role c ts k p → Role c ts k (signalled p)
  signalled-Role ts k (front_waits b) some_left h = (h.0, h.1, some_left)
  signalled-Role ts k _ some_left h = ground arith

  signalled-IsOutside : (p : Pc) → ¬ IsOutside p → ¬ IsOutside (signalled p)
  signalled-IsOutside (front_waits b) h = absurd (h tt)
  signalled-IsOutside _ h = ground arith

  -- The lines that look at the queue.
  module _ (s : Shared) (i j : ℕ) where
    abbrev holding : List ℕ → Shared
    holding ts = record s { inner_queue = ts }

    pop_tests-Plan :
        (ts : List ℕ)
        → Plan c (holding ts)
        → (i ≡ c) × (ts ≢ [])
        → Plan c (line (holding ts) i j pop_tests)
    unfolding line
    pop_tests-Plan [] plan h = absurd (h.1 refl)
    pop_tests-Plan (t ∷ ts) plan h =
        move-Plan c (holding (t ∷ ts)) i plan pop_removes h.0 (λ held out. out)

    pop_removes-Plan :
        (ts : List ℕ)
        → Plan c (holding ts)
        → i ≡ c
        → ts ≢ []
        → Plan c (line (holding ts) i j pop_removes)
    unfolding line
    pop_removes-Plan [] plan h some_left = absurd (some_left refl)
    pop_removes-Plan (t ∷ ts) plan h some_left =
        go-Plan c (holding (t ∷ ts)) i plan s.owner ts s.added (s.removed ++ t ∷ []) (unlocks idle)
          tt (λ k ne same. absurd (ne (same ∙ sym h))) (λ held out. out) (λ k ne held. held)

    front_tests-Plan :
        (b : Bool) (ts : List ℕ)
        → Plan c (holding ts)
        → (i ≡ c) × (b ≡ true)
        → Plan c (line (holding ts) i j (front_tests b))
    unfolding line
    front_tests-Plan b [] plan h = unlock-Plan c (holding []) i plan (front_waits b) h
    front_tests-Plan b (t ∷ ts) plan h =
        move-Plan c (holding (t ∷ ts)) i plan (front_reads b) (h.0, h.1, λ e. cc e)
          (λ held out. out)

    front_reads-Plan :
        (b : Bool) (ts : List ℕ)
        → Plan c (holding ts)
        → (i ≡ c) × (b ≡ true) × (ts ≢ [])
        → Plan c (line (holding ts) i j (front_reads b))
    unfolding line
    front_reads-Plan b [] plan h = absurd (h.2 refl)
    front_reads-Plan true (t ∷ ts) plan h =
        move-Plan c (holding (t ∷ ts)) i plan (unlocks pop_locks) (h.0, λ e. cc e) (λ held out. out)
    front_reads-Plan false (t ∷ ts) plan h = absurd (cc h.1)

  module _ (size : ℕ) (s : Shared) (i j : ℕ) (plan : Plan c s) where
    signal-Plan :
        s.inner_queue ≢ [] → Plan c (move (move s j (signalled (s.pc j))) i (unlocks idle))
    signal-Plan some_left =
        move-Plan c (move s j (signalled (s.pc j))) i
          (move-Plan c s j plan (signalled (s.pc j))
            (signalled-Role s.inner_queue j (s.pc j) some_left (plan.roles j))
            (λ held. signalled-IsOutside (s.pc j) (plan.kept j held)))
          (unlocks idle) tt (λ held out. out)

    line-Plan :
        (p : Pc)
        → Knows size s.owner s.inner_queue i p
        → Role c s.inner_queue i p
        → Plan c (line s i j p)
    unfolding line
    line-Plan idle k h = plan
    line-Plan (push_locks t) k h = lock-Plan c s i plan (push_tests t) tt (λ out. out)
    line-Plan (push_tests t) k h = elim (Bool-cases (length s.inner_queue == s.size)) [
      | inl full ↦ rw full (unlock-Plan c s i plan (push_waits t) tt)
      | inr room ↦ rw room (move-Plan c s i plan (push_adds t) tt (λ held out. out))
    ]
    line-Plan (push_waits t) k h = plan
    line-Plan (push_wakes t) k h = lock-Plan c s i plan (push_tests t) tt (λ out. out)
    line-Plan (push_adds t) k h =
        go-Plan c s i plan s.owner (s.inner_queue ++ t ∷ []) (s.added ++ t ∷ []) s.removed
          push_signals tt (λ n ne same e. append_one-ne-nil s.inner_queue t) (λ held out. out)
          (λ n ne held. held)
    line-Plan push_signals k h = signal-Plan k.1
    line-Plan pop_locks k h = lock-Plan c s i plan pop_tests h (λ out. out)
    line-Plan pop_tests k h = pop_tests-Plan s i j s.inner_queue plan h
    line-Plan pop_removes k h = pop_removes-Plan s i j s.inner_queue plan h k.1
    line-Plan (front_locks b) k h = lock-Plan c s i plan (front_tests b) h (λ out. out)
    line-Plan (front_tests b) k h = front_tests-Plan s i j b s.inner_queue plan h
    line-Plan (front_waits b) k h = plan
    line-Plan (front_wakes b) k h = lock-Plan c s i plan (front_reads b) h (λ out. out)
    line-Plan (front_reads b) k h = front_reads-Plan s i j b s.inner_queue plan h
    line-Plan (unlocks p) k h = unlock-Plan c s i plan p (Follows-Role c s.inner_queue i p h)
    line-Plan undefined_front k h = absurd h
    line-Plan undefined_pop k h = absurd h

  module _ (size : ℕ) (s : Shared) (i : ℕ) (inv : Inv size s) (plan : Plan c s) where
    -- A thread between its calls does not have the lock.
    call-Plan : (p q : Pc) → s.pc i ≡ q → Role c s.inner_queue i p → Plan c (call s i p q)
    call-Plan p idle e role =
        move-Plan c s i plan p role (λ held. absurd (plan.kept i held (subst IsOutside (sym e) tt)))
    call-Plan p _ e role = plan

    pub step-Plan : (e : Choice) → IsPlanned c i e → Plan c (step s i e)
    unfolding step
    step-Plan (calls_push t) h = call-Plan (push_locks t) (s.pc i) refl tt
    step-Plan calls_pop h = absurd h
    step-Plan calls_front h = absurd h
    step-Plan takes h = call-Plan (front_locks true) (s.pc i) refl (h, refl)
    step-Plan (runs j) h = line-Plan size s i j plan (s.pc i) (inv.knows i) (plan.roles i)
    step-Plan wakes_up h = absurd h
    step-Plan wait_fails h = absurd h

  pub interleave-Plan :
      (size : ℕ) (s : Shared) (es : List (ℕ × Choice))
      → Inv size s
      → Plan c s
      → ArePlanned c es
      → Plan c (interleave s es)
  unfolding interleave
  interleave-Plan size s [] inv plan h = plan
  interleave-Plan size s ((i, e) ∷ es) inv plan h =
      interleave-Plan size (step s i e) es (step-Inv size s i inv e)
        (step-Plan size s i inv plan e h.0) h.1

pub new_shared-Plan : (c size : ℕ) → Plan c (new_shared size)
new_shared-Plan c size = record { roles = λ k. tt; kept = λ k e. absurd (cc e) }

-- What the plan gives for a thread.
pub record Serves (s : Shared) (i : ℕ) : Type 0 where
  pub no_empty_front : s.pc i ≢ undefined_front
  pub no_kept_lock : (s.owner ≢ some i) ⊎ (¬ IsOutside (s.pc i))

Plan-Serves : (c : ℕ) (s : Shared) (i : ℕ) → Plan c s → Serves s i
Plan-Serves c s i plan = record {
  no_empty_front = λ e. subst (Role c s.inner_queue i) e (plan.roles i);
  no_kept_lock = elim (outside_or (s.pc i)) [
    | inl out ↦ inl (λ held. plan.kept i held out)
    | inr inside ↦ inr inside
  ];
}

-- On a new queue one thread alone takes elements, by Front and then Pop, any number of threads push,
-- and no wait fails or ends without a signal. Then, whatever the interleaving, Front never reads an
-- empty std::queue, and a thread that has the lock is between its lock and its unlock, so that no call
-- returns with it.
pub interleave-Serves :
    (size c : ℕ) (es : List (ℕ × Choice)) (i : ℕ)
    → ArePlanned c es
    → Serves (interleave (new_shared size) es) i
interleave-Serves size c es i h =
    Plan-Serves c (interleave (new_shared size) es) i
      (interleave-Plan c size (new_shared size) es (new_shared-Inv size) (new_shared-Plan c size) h)
