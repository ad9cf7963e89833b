-- ===== src/Queue/Wakeup.antt =====
-- ffos/ota/include/utils/MutexQueue.h: the wait for an element, line by line and for whole runs.
use code_snippet.Common.{
  ℕ, ◌≡◌, ◌≢◌, refl, sym, subst, ◌⊎◌, inl, inr, List, [], ◌∷◌, ◌++◌, Bool, true, ◌==◌, length,
  Bool-cases,
}
use code_snippet.Queue.Threads.{
  Pc, idle, push_locks, push_tests, push_waits, push_wakes, push_adds, push_signals, pop_locks,
  pop_tests, pop_removes, front_locks, front_tests, front_waits, front_wakes, front_reads, unlocks,
  undefined_front, undefined_pop, Shared, new_shared, move, signalled, after_front, line, Choice,
  calls_push, calls_pop, calls_front, takes, runs, wakes_up, wait_fails, call, step, interleave,
}
use code_snippet.Queue.Exclusion.{Inv}
use code_snippet.Queue.Lines.{step-Inv, new_shared-Inv}
use code_snippet.Queue.Plan.{IsPlanned, Follows, Role, Plan}
use code_snippet.Queue.Consumer.{step-Plan, new_shared-Plan}
use code_snippet.Queue.Alert.{
  IsFair, AreFair, IsAlert, go-IsAlert, move-IsAlert, unlock-IsAlert, lock-IsAlert, signal-IsAlert,
}

module _ (c : ℕ) where
  module _ (s : Shared) (i j : ℕ) where
    abbrev holding : List ℕ → Shared
    holding ts = record s { inner_queue = ts }

    pop_tests-IsAlert :
        (ts : List ℕ)
        → IsAlert c (holding ts)
        → s.pc i ≢ push_signals
        → IsAlert c (line (holding ts) i j pop_tests)
    unfolding line
    pop_tests-IsAlert [] alert quiet =
        move-IsAlert c (holding []) i alert quiet idle (λ b e. absurd (cc e))
    pop_tests-IsAlert (t ∷ ts) alert quiet =
        move-IsAlert c (holding (t ∷ ts)) i alert quiet pop_removes (λ b e. absurd (cc e))

    pop_removes-IsAlert :
        (ts : List ℕ)
        → IsAlert c (holding ts)
        → s.pc i ≢ push_signals
        → i ≡ c
        → IsAlert c (line (holding ts) i j pop_removes)
    unfolding line
    pop_removes-IsAlert [] alert quiet same =
        move-IsAlert c (holding []) i alert quiet undefined_pop (λ b e. absurd (cc e))
    pop_removes-IsAlert (t ∷ ts) alert quiet same =
        go-IsAlert c (holding (t ∷ ts)) i alert quiet s.owner ts s.added (s.removed ++ t ∷ [])
          (unlocks idle) (inl same) (λ b e. absurd (cc e))

    front_tests-IsAlert :
        (b : Bool) (ts : List ℕ)
        → IsAlert c (holding ts)
        → s.pc i ≢ push_signals
        → IsAlert c (line (holding ts) i j (front_tests b))
    unfolding line
    front_tests-IsAlert b [] alert quiet =
        unlock-IsAlert c (holding []) i alert quiet (front_waits b) (λ b' e. refl)
    front_tests-IsAlert b (t ∷ ts) alert quiet =
        move-IsAlert c (holding (t ∷ ts)) i alert quiet (front_reads b) (λ b' e. absurd (cc e))

    front_reads-IsAlert :
        (b : Bool) (ts : List ℕ)
        → IsAlert c (holding ts)
        → s.pc i ≢ push_signals
        → IsAlert c (line (holding ts) i j (front_reads b))
    unfolding line
    front_reads-IsAlert b [] alert quiet =
        move-IsAlert c (holding []) i alert quiet undefined_front (λ b' e. absurd (cc e))
    front_reads-IsAlert b (t ∷ ts) alert quiet =
        move-IsAlert c (holding (t ∷ ts)) i alert quiet (unlocks (after_front b))
          (λ b' e. absurd (cc e))

  line-IsAlert :
      (s : Shared) (i j : ℕ) (p : Pc)
      → IsAlert c s
      → s.pc i ≡ p
      → j ≡ c
      → Role c s.inner_queue i p
      → IsAlert c (line s i j p)
  unfolding line
  line-IsAlert s i j idle alert e same role = alert
  line-IsAlert s i j push_signals alert e same role =
      subst (λ (n : ℕ). IsAlert c (move (move s n (signalled (s.pc n))) i (unlocks idle)))
        (sym same) (signal-IsAlert c s i)
  line-IsAlert s i j (push_locks t) alert e same role =
      lock-IsAlert c s i alert (λ e'. cc (e, e')) (push_tests t) (λ b e'. absurd (cc e'))
  line-IsAlert s i j (push_tests t) alert e same role =
      elim (Bool-cases (length s.inner_queue == s.size)) [
        | inl full ↦
            rw full (
              unlock-IsAlert c s i alert (λ e'. cc (e, e')) (push_waits t) (λ b e'. absurd (cc e')))
        | inr room ↦
            rw room
              (move-IsAlert c s i alert (λ e'. cc (e, e')) (push_adds t) (λ b e'. absurd (cc e')))
      ]
  line-IsAlert s i j (push_waits t) alert e same role = alert
  line-IsAlert s i j (push_wakes t) alert e same role =
      lock-IsAlert c s i alert (λ e'. cc (e, e')) (push_tests t) (λ b e'. absurd (cc e'))
  line-IsAlert s i j (push_adds t) alert e same role =
      go-IsAlert c s i alert (λ e'. cc (e, e')) s.owner (s.inner_queue ++ t ∷ [])
        (s.added ++ t ∷ []) s.removed push_signals (inr (inr refl)) (λ b e'. absurd (cc e'))
  line-IsAlert s i j pop_locks alert e same role =
      lock-IsAlert c s i alert (λ e'. cc (e, e')) pop_tests (λ b e'. absurd (cc e'))
  line-IsAlert s i j pop_tests alert e same role =
      pop_tests-IsAlert s i j s.inner_queue alert (λ e'. cc (e, e'))
  line-IsAlert s i j pop_removes alert e same role =
      pop_removes-IsAlert s i j s.inner_queue alert (λ e'. cc (e, e')) role
  line-IsAlert s i j (front_locks b) alert e same role =
      lock-IsAlert c s i alert (λ e'. cc (e, e')) (front_tests b) (λ b' e'. absurd (cc e'))
  line-IsAlert s i j (front_tests b) alert e same role =
      front_tests-IsAlert s i j b s.inner_queue alert (λ e'. cc (e, e'))
  line-IsAlert s i j (front_waits b) alert e same role = alert
  line-IsAlert s i j (front_wakes b) alert e same role =
      lock-IsAlert c s i alert (λ e'. cc (e, e')) (front_reads b) (λ b' e'. absurd (cc e'))
  line-IsAlert s i j (front_reads b) alert e same role =
      front_reads-IsAlert s i j b s.inner_queue alert (λ e'. cc (e, e'))
  line-IsAlert s i j (unlocks p) alert e same role =
      unlock-IsAlert c s i alert (λ e'. cc (e, e')) p
        (λ b e'. absurd (subst (Follows c s.inner_queue i) e' role))
  line-IsAlert s i j undefined_front alert e same role = alert
  line-IsAlert s i j undefined_pop alert e same role = alert

  call-IsAlert :
      (s : Shared) (i : ℕ) (p q : Pc)
      → IsAlert c s
      → s.pc i ≡ q
      → ((b : Bool) → p ≢ front_waits b)
      → IsAlert c (call s i p q)
  call-IsAlert s i p idle alert e other =
      move-IsAlert c s i alert (λ e'. cc (e, e')) p (λ b e'. absurd (other b e'))
  call-IsAlert s i p _ alert e other = alert

  step-IsAlert :
      (s : Shared) (i : ℕ) (e : Choice)
      → Plan c s
      → IsAlert c s
      → IsFair c i e
      → IsAlert c (step s i e)
  unfolding step
  step-IsAlert s i (calls_push t) plan alert h =
      call-IsAlert s i (push_locks t) (s.pc i) alert refl (λ b e. cc e)
  step-IsAlert s i calls_pop plan alert h = absurd h
  step-IsAlert s i calls_front plan alert h = absurd h
  step-IsAlert s i takes plan alert h =
      call-IsAlert s i (front_locks true) (s.pc i) alert refl (λ b e. cc e)
  step-IsAlert s i (runs j) plan alert h = line-IsAlert s i j (s.pc i) alert refl h (plan.roles i)
  step-IsAlert s i wakes_up plan alert h = absurd h
  step-IsAlert s i wait_fails plan alert h = absurd h

  IsFair-IsPlanned : (i : ℕ) (e : Choice) → IsFair c i e → IsPlanned c i e
  IsFair-IsPlanned i (runs j) h = tt
  IsFair-IsPlanned i (calls_push t) h = h
  IsFair-IsPlanned i calls_pop h = h
  IsFair-IsPlanned i calls_front h = h
  IsFair-IsPlanned i takes h = h
  IsFair-IsPlanned i wakes_up h = h
  IsFair-IsPlanned i wait_fails h = h

  interleave-IsAlert :
      (size : ℕ) (s : Shared) (es : List (ℕ × Choice))
      → Inv size s
      → Plan c s
      → IsAlert c s
      → AreFair c es
      → IsAlert c (interleave s es)
  unfolding interleave
  interleave-IsAlert size s [] inv plan alert h = alert
  interleave-IsAlert size s ((i, e) ∷ es) inv plan alert h =
      interleave-IsAlert size (step s i e) es (step-Inv size s i inv e)
        (step-Plan c size s i inv plan e (IsFair-IsPlanned i e h.0))
        (step-IsAlert s i e plan alert h.0) h.1

-- On a new queue one thread alone takes elements, any thread pushes, no wait fails or ends without a
-- signal, and a signal wakes the taking thread if that waits. Then no wake-up is lost: when the taking
-- thread waits in Front, the queue is empty, or some thread has pushed and sends the signal next.
pub no_lost_wakeup :
    (size c : ℕ) (es : List (ℕ × Choice)) (b : Bool)
    → AreFair c es
    → let s = interleave (new_shared size) es in
      s.pc c ≡ front_waits b → (s.inner_queue ≡ []) ⊎ ((k : ℕ) × (s.pc k ≡ push_signals))
no_lost_wakeup size c es b h waiting =
    interleave-IsAlert c size (new_shared size) es (new_shared-Inv size) (new_shared-Plan c size)
      (λ b' e. absurd (cc e)) h b waiting
