-- ===== src/Queue/Stuck.antt =====
-- ffos/ota/include/utils/MutexQueue.h: the one thread that takes elements waits for room itself.
use code_snippet.Common.{ℕ, ◌≡◌, ◌≢◌, refl, subst, true, ◌∙◌, List, [], ◌∷◌, arith}
use code_snippet.Queue.Threads.{
  Pc, idle, push_locks, push_waits, pop_removes, front_locks, Shared, new_shared, line, Choice,
  calls_push, calls_pop, calls_front, takes, runs, wakes_up, wait_fails, call, step, interleave,
}
use code_snippet.Queue.Exclusion.{Inv}
use code_snippet.Queue.Lines.{step-Inv, interleave-Inv, new_shared-Inv}
use code_snippet.Queue.Plan.{IsPlanned, ArePlanned, Role, Plan}
use code_snippet.Queue.Consumer.{step-Plan, interleave-Plan, new_shared-Plan}
use code_snippet.Queue.Waiting.{step-waits, IsSignalled}

line-removed :
    (s : Shared) (i j : ℕ) (p : Pc) → p ≢ pop_removes → (line s i j p).removed ≡ s.removed
unfolding line
line-removed s i j idle other = refl
line-removed s i j pop_removes other = absurd (other refl)
line-removed s i j _ other = ground arith

call-removed : (s : Shared) (i : ℕ) (p q : Pc) → (call s i p q).removed ≡ s.removed
call-removed s i p idle = refl
call-removed s i p _ = refl

module _ (c t : ℕ) where
  planned-IsSignalled : (i : ℕ) (e : Choice) → IsPlanned c i e → IsSignalled e
  planned-IsSignalled i (calls_push n) h = tt
  planned-IsSignalled i _ h = ground arith

  module _ (s : Shared) (i : ℕ) (plan : Plan c s) (stuck : s.pc c ≡ push_waits t) where
    not_removing : s.pc i ≢ pop_removes
    not_removing e = cc (same, e, stuck)
      where
        same : i ≡ c
        same = subst (Role c s.inner_queue i) e (plan.roles i)

    step-removed : (e : Choice) → IsPlanned c i e → (step s i e).removed ≡ s.removed
    unfolding step
    step-removed (calls_push n) h = call-removed s i (push_locks n) (s.pc i)
    step-removed calls_pop h = absurd h
    step-removed calls_front h = absurd h
    step-removed takes h = call-removed s i (front_locks true) (s.pc i)
    step-removed (runs j) h = line-removed s i j (s.pc i) not_removing
    step-removed wakes_up h = absurd h
    step-removed wait_fails h = absurd h

  interleave-removed :
      (size : ℕ) (s : Shared) (es : List (ℕ × Choice))
      → Inv size s
      → Plan c s
      → ArePlanned c es
      → s.pc c ≡ push_waits t
      → (interleave s es).removed ≡ s.removed
  unfolding interleave
  interleave-removed size s [] inv plan h stuck = refl
  interleave-removed size s ((i, e) ∷ es) inv plan h stuck =
      interleave-removed size (step s i e) es (step-Inv size s i inv e)
        (step-Plan c size s i inv plan e h.0) h.1
        (step-waits c t s i e (planned-IsSignalled i e h.0) stuck)
      ∙ step-removed s i plan stuck e h.0

-- On a new queue one thread alone takes elements, any thread pushes, and no wait fails or ends without
-- a signal. If the thread that takes comes to wait for room in a Push of its own, no element is taken
-- out any more, whatever happens afterwards.
pub consumer_deadlock :
    (size c t : ℕ) (es later : List (ℕ × Choice))
    → ArePlanned c es
    → ArePlanned c later
    → let s = interleave (new_shared size) es in
      s.pc c ≡ push_waits t → (interleave s later).removed ≡ s.removed
consumer_deadlock size c t es later h h' stuck =
    interleave-removed c t size (interleave (new_shared size) es) later
      (interleave-Inv size (new_shared size) es (new_shared-Inv size))
      (interleave-Plan c size (new_shared size) es (new_shared-Inv size) (new_shared-Plan c size) h)
      h' stuck
