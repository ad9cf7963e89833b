-- ===== src/Queue/Locked.antt =====
-- ffos/ota/include/utils/MutexQueue.h: the early return of Pop, with any number of threads on the queue.
use code_snippet.Common.{
  ℕ, ◌≡◌, refl, sym, ap, subst, ◌∙◌, inl, inr, List, [], ◌∷◌, true, false, none, some, arith, ◌==◌,
  Bool-cases,
}
use code_snippet.Queue.Threads.{
  Pc, idle, push_locks, push_waits, push_wakes, pop_locks, pop_tests, front_locks, front_waits,
  front_wakes, Shared, new_shared, place_at, move, lock, line, Choice, calls_push, calls_pop,
  calls_front, takes, runs, wakes_up, wait_fails, call, woken, wait_failed, step, interleave,
}
use code_snippet.Queue.Exclusion.{IsOutside, Inv}
use code_snippet.Queue.Lines.{interleave-Inv, new_shared-Inv, outside_or, inside-owner}
use code_snippet.Queue.Waiting.{place_at_self}

-- Thread `i` has the lock, no thread is between lock and unlock, and the queue is the one of `s0`.
pub record IsHeld (i : ℕ) (s0 s : Shared) : Type 0 where
  pub owner : s.owner ≡ some i
  pub inner_queue : s.inner_queue ≡ s0.inner_queue
  pub added : s.added ≡ s0.added
  pub removed : s.removed ≡ s0.removed
  pub outside : (k : ℕ) → IsOutside (s.pc k)

module _ (i : ℕ) (s0 s : Shared) (held : IsHeld i s0 s) (k : ℕ) where
  place_at-IsOutside : (p : Pc) → IsOutside p → (n : ℕ) → IsOutside (place_at s.pc k p n)
  place_at-IsOutside p out n = elim (Bool-cases (n == k)) [
    | inl same ↦ rw same out
    | inr other ↦ rw other (held.outside n)
  ]

  move-IsHeld : (p : Pc) → IsOutside p → IsHeld i s0 (move s k p)
  move-IsHeld p out = record {
    owner = held.owner;
    inner_queue = held.inner_queue;
    added = held.added;
    removed = held.removed;
    outside = place_at-IsOutside p out;
  }

  lock-held : (p : Pc) → lock s k p ≡ s
  lock-held p = rw (held.owner) refl

  -- A thread outside does not come any further.
  line-held : (j : ℕ) (p : Pc) → IsOutside p → line s k j p ≡ s
  unfolding line
  line-held j (push_locks t) out = lock-held _
  line-held j (push_wakes t) out = lock-held _
  line-held j pop_locks out = lock-held _
  line-held j (front_locks b) out = lock-held _
  line-held j (front_wakes b) out = lock-held _
  line-held j _ out = ground arith

  wait_failed-held : (p : Pc) → wait_failed s k p ≡ s
  wait_failed-held (push_waits t) = lock-held _
  wait_failed-held (front_waits b) = lock-held _
  wait_failed-held _ = refl

  call-IsHeld : (p q : Pc) → IsOutside p → IsHeld i s0 (call s k p q)
  call-IsHeld p idle out = move-IsHeld p out
  call-IsHeld p _ out = held

  woken-IsHeld : (p : Pc) → IsHeld i s0 (woken s k p)
  woken-IsHeld (push_waits t) = move-IsHeld (push_wakes t) tt
  woken-IsHeld (front_waits b) = move-IsHeld (front_wakes b) tt
  woken-IsHeld _ = held

  step-IsHeld : (e : Choice) → IsHeld i s0 (step s k e)
  unfolding step
  step-IsHeld (calls_push t) = call-IsHeld (push_locks t) (s.pc k) tt
  step-IsHeld calls_pop = call-IsHeld pop_locks (s.pc k) tt
  step-IsHeld calls_front = call-IsHeld (front_locks false) (s.pc k) tt
  step-IsHeld takes = call-IsHeld (front_locks true) (s.pc k) tt
  step-IsHeld (runs j) = subst (IsHeld i s0) (sym (line-held j (s.pc k) (held.outside k))) held
  step-IsHeld wakes_up = woken-IsHeld (s.pc k)
  step-IsHeld wait_fails = subst (IsHeld i s0) (sym (wait_failed-held (s.pc k))) held

interleave-IsHeld :
    (i : ℕ) (s0 s : Shared) (es : List (ℕ × Choice)) → IsHeld i s0 s → IsHeld i s0 (interleave s es)
unfolding interleave
interleave-IsHeld i s0 s [] held = held
interleave-IsHeld i s0 s ((k, e) ∷ es) held =
    interleave-IsHeld i s0 (step s k e) es (step-IsHeld i s0 s held k e)

module _ (s : Shared) (i : ℕ) where
  abbrev called : Shared
  called = move s i pop_locks

  abbrev locked : Shared
  locked = record called { owner = some i; pc = place_at called.pc i pop_tests }

  pop_called : s.pc i ≡ idle → step s i calls_pop ≡ called
  unfolding step
  pop_called e = ap (call s i pop_locks) e

  pop_locked : s.owner ≡ none → step called i (runs 0) ≡ locked
  unfolding step line
  pop_locked e = ap (line called i 0) (place_at_self i 0 s.pc pop_locks) ∙ rw e refl

  pop_returned : s.inner_queue ≡ [] → step locked i (runs 0) ≡ move locked i idle
  unfolding step line
  pop_returned e = ap (line locked i 0) (place_at_self i 0 called.pc pop_tests) ∙ rw e refl

  -- Nobody is between lock and unlock while the lock is free.
  free-outside : (size : ℕ) → Inv size s → s.owner ≡ none → (k : ℕ) → IsOutside (s.pc k)
  free-outside size inv free k = elim (outside_or (s.pc k)) [
    | inl out ↦ out
    | inr inside ↦
        let held : s.owner ≡ some k =
          inside-owner size s.owner s.inner_queue k (s.pc k) (inv.knows k) inside in
        absurd (cc (held, free))
  ]

  returned-IsHeld : ((k : ℕ) → IsOutside (s.pc k)) → IsHeld i s (move locked i idle)
  returned-IsHeld out = record {
    owner = refl;
    inner_queue = refl;
    added = refl;
    removed = refl;
    outside =
        λ n. elim (Bool-cases (n == i)) [ inl same ↦ rw same tt | inr other ↦ rw other (out n) ];
  }

-- On a queue that any run of any threads has left empty with a free lock, a thread that is between its
-- calls calls Pop, and its next two lines run. Whatever all the threads do from then on, waits that end
-- without a signal or fail included, that thread keeps the lock, no thread gets past a lock, and nothing
-- is added or removed any more.
pub pop_blocks_forever :
    (size i : ℕ) (es later : List (ℕ × Choice))
    → let s = interleave (new_shared size) es in
      s.pc i ≡ idle
      → s.owner ≡ none
      → s.inner_queue ≡ []
      → IsHeld i s (interleave s ((i, calls_pop) ∷ (i, runs 0) ∷ (i, runs 0) ∷ later))
unfolding interleave
pop_blocks_forever size i es later between free empty =
    let s : Shared = interleave (new_shared size) es in
    let runs_ : step (step (step s i calls_pop) i (runs 0)) i (runs 0) ≡ move (locked s i) i idle =
      ap (λ (s' : Shared). step (step s' i (runs 0)) i (runs 0)) (pop_called s i between)
      ∙ ap (λ (s' : Shared). step s' i (runs 0)) (pop_locked s i free)
      ∙ pop_returned s i empty in
    interleave-IsHeld i s (step (step (step s i calls_pop) i (runs 0)) i (runs 0)) later (
      subst (IsHeld i s) (sym runs_) (
        returned-IsHeld s i (
          free-outside s i size (interleave-Inv size (new_shared size) es (new_shared-Inv size))
            free)))
