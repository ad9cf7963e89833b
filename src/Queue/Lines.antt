-- ===== src/Queue/Lines.antt =====
-- ffos/ota/include/utils/MutexQueue.h: what the threads know, line by line and for whole runs.
use code_snippet.Common.{
  ℕ, ◌⊎◌, ◌≤◌, ◌≡◌, ◌≢◌, refl, sym, ap, subst, ◌∙◌, inl, inr, List, [], ◌∷◌, ◌++◌, Bool, true,
  false, Option, some, arith, ◌==◌, length, Bool-cases, append_assoc, length-append,
}
use code_snippet.Queue.Threads.{
  Pc, idle, push_locks, push_tests, push_waits, push_wakes, push_adds, push_signals, pop_locks,
  pop_tests, pop_removes, front_locks, front_tests, front_waits, front_wakes, front_reads, unlocks,
  undefined_front, undefined_pop, Shared, new_shared, move, signalled, after_front, line, Choice,
  calls_push, calls_pop, calls_front, takes, runs, wakes_up, wait_fails, call, woken, wait_failed,
  step, interleave,
}
use code_snippet.Queue.Exclusion.{
  IsOutside, Knows, Inv, outside-Knows, move-Inv, unlock-Inv, lock-Inv, change-Inv,
}

after_front-IsOutside : (b : Bool) → IsOutside (after_front b)
after_front-IsOutside true = tt
after_front-IsOutside false = tt

pub append_one-ne-nil : (ts : List ℕ) (t : ℕ) → ts ++ t ∷ [] ≢ []
append_one-ne-nil [] t e = cc e
append_one-ne-nil (x ∷ ts) t e = cc e

-- The lines that look at the queue; it is an argument of its own, to be split on.
module _ (size : ℕ) (s : Shared) (i j : ℕ) where
  abbrev holding : List ℕ → Shared
  holding ts = record s { inner_queue = ts }

  pop_tests-Inv :
      (ts : List ℕ)
      → Inv size (holding ts)
      → s.owner ≡ some i
      → Inv size (line (holding ts) i j pop_tests)
  unfolding line
  pop_tests-Inv [] inv h = move-Inv size (holding []) i inv idle tt
  pop_tests-Inv (t ∷ ts) inv h = move-Inv size (holding (t ∷ ts)) i inv pop_removes (h, λ e. cc e)

  pop_removes-Inv :
      (ts : List ℕ)
      → Inv size (holding ts)
      → (s.owner ≡ some i) × (ts ≢ [])
      → Inv size (line (holding ts) i j pop_removes)
  unfolding line
  pop_removes-Inv [] inv h = absurd (h.1 refl)
  pop_removes-Inv (t ∷ ts) inv h =
      change-Inv size (holding (t ∷ ts)) i inv ts s.added (s.removed ++ t ∷ []) (unlocks idle) h.0
        (inv.order ∙ sym (append_assoc s.removed (t ∷ []) ts)) (omega (arith, inv.bounded))
        (h.0, tt)

  front_tests-Inv :
      (b : Bool) (ts : List ℕ)
      → Inv size (holding ts)
      → s.owner ≡ some i
      → Inv size (line (holding ts) i j (front_tests b))
  unfolding line
  front_tests-Inv b [] inv h = unlock-Inv size (holding []) i inv (front_waits b) h tt
  front_tests-Inv b (t ∷ ts) inv h = move-Inv size (holding (t ∷ ts)) i inv (front_reads b) h

  front_reads-Inv :
      (b : Bool) (ts : List ℕ)
      → Inv size (holding ts)
      → s.owner ≡ some i
      → Inv size (line (holding ts) i j (front_reads b))
  unfolding line
  front_reads-Inv b [] inv h = move-Inv size (holding []) i inv undefined_front tt
  front_reads-Inv b (t ∷ ts) inv h =
      move-Inv size (holding (t ∷ ts)) i inv (unlocks (after_front b)) (h, after_front-IsOutside b)

signalled-Knows :
    (size : ℕ) (owner : Option ℕ) (ts : List ℕ) (i : ℕ) (p : Pc)
    → Knows size owner ts i p
    → Knows size owner ts i (signalled p)
signalled-Knows size owner ts i (front_waits b) h = tt
signalled-Knows size owner ts i _ h = ground arith

module _ (size : ℕ) (s : Shared) (i j : ℕ) (inv : Inv size s) where
  -- The signal, in front of the unlock of the thread that sends it.
  signal-Inv : s.owner ≡ some i → Inv size (move (move s j (signalled (s.pc j))) i (unlocks idle))
  signal-Inv held =
      move-Inv size (move s j (signalled (s.pc j))) i
        (move-Inv size s j inv (signalled (s.pc j))
          (signalled-Knows size s.owner s.inner_queue j (s.pc j) (inv.knows j)))
        (unlocks idle) (held, tt)

  line-Inv : (p : Pc) → Knows size s.owner s.inner_queue i p → Inv size (line s i j p)
  unfolding line
  line-Inv idle h = inv
  line-Inv (push_locks t) h = lock-Inv size s i inv (push_tests t) refl
  line-Inv (push_tests t) h = elim (Bool-cases (length s.inner_queue == s.size)) [
    | inl full ↦ rw full (unlock-Inv size s i inv (push_waits t) h tt)
    | inr room ↦
        rw room
          (move-Inv size s i inv (push_adds t) (h, ground (arith, inv.bounded, inv.same_size)))
  ]
  line-Inv (push_waits t) h = inv
  line-Inv (push_wakes t) h = lock-Inv size s i inv (push_tests t) refl
  line-Inv (push_adds t) h =
      change-Inv size s i inv (s.inner_queue ++ t ∷ []) (s.added ++ t ∷ []) s.removed push_signals
        h.0
        (ap (λ (xs : List ℕ). xs ++ t ∷ []) inv.order
          ∙ append_assoc s.removed s.inner_queue (t ∷ []))
        (omega (arith, length-append s.inner_queue (t ∷ []), h.1))
        (h.0, append_one-ne-nil s.inner_queue t)
  line-Inv push_signals h = signal-Inv h.0
  line-Inv pop_locks h = lock-Inv size s i inv pop_tests refl
  line-Inv pop_tests h = pop_tests-Inv size s i j s.inner_queue inv h
  line-Inv pop_removes h = pop_removes-Inv size s i j s.inner_queue inv h
  line-Inv (front_locks b) h = lock-Inv size s i inv (front_tests b) refl
  line-Inv (front_tests b) h = front_tests-Inv size s i j b s.inner_queue inv h
  line-Inv (front_waits b) h = inv
  line-Inv (front_wakes b) h = lock-Inv size s i inv (front_reads b) refl
  line-Inv (front_reads b) h = front_reads-Inv size s i j b s.inner_queue inv h
  line-Inv (unlocks p) h = unlock-Inv size s i inv p h.0 h.1
  line-Inv undefined_front h = inv
  line-Inv undefined_pop h = inv

module _ (size : ℕ) (s : Shared) (i : ℕ) (inv : Inv size s) where
  call-Inv : (p q : Pc) → IsOutside p → Inv size (call s i p q)
  call-Inv p idle out = move-Inv size s i inv p (outside-Knows size s.owner s.inner_queue i p out)
  call-Inv p _ out = inv

  woken-Inv : (p : Pc) → Inv size (woken s i p)
  woken-Inv (push_waits t) = move-Inv size s i inv (push_wakes t) tt
  woken-Inv (front_waits b) = move-Inv size s i inv (front_wakes b) tt
  woken-Inv _ = inv

  wait_failed-Inv : (p : Pc) → Inv size (wait_failed s i p)
  wait_failed-Inv (push_waits t) = lock-Inv size s i inv (unlocks idle) (refl, tt)
  wait_failed-Inv (front_waits b) =
      lock-Inv size s i inv (after_front b)
        (outside-Knows size (some i) s.inner_queue i (after_front b) (after_front-IsOutside b))
  wait_failed-Inv _ = inv

  pub step-Inv : (e : Choice) → Inv size (step s i e)
  unfolding step
  step-Inv (calls_push t) = call-Inv (push_locks t) (s.pc i) tt
  step-Inv calls_pop = call-Inv pop_locks (s.pc i) tt
  step-Inv calls_front = call-Inv (front_locks false) (s.pc i) tt
  step-Inv takes = call-Inv (front_locks true) (s.pc i) tt
  step-Inv (runs j) = line-Inv size s i j inv (s.pc i) (inv.knows i)
  step-Inv wakes_up = woken-Inv (s.pc i)
  step-Inv wait_fails = wait_failed-Inv (s.pc i)

pub interleave-Inv :
    (size : ℕ) (s : Shared) (es : List (ℕ × Choice)) → Inv size s → Inv size (interleave s es)
unfolding interleave
interleave-Inv size s [] inv = inv
interleave-Inv size s ((i, e) ∷ es) inv =
    interleave-Inv size (step s i e) es (step-Inv size s i inv e)

pub new_shared-Inv : (size : ℕ) → Inv size (new_shared size)
new_shared-Inv size = record {
  same_size = refl;
  order = refl;
  bounded = omega arith;
  knows = λ k. tt;
}

-- What a run of a new queue shows of two threads.
pub record Excludes (size : ℕ) (s : Shared) (i k : ℕ) : Type 0 where
  pub alone : IsOutside (s.pc i) ⊎ IsOutside (s.pc k)
  pub order : s.added ≡ s.removed ++ s.inner_queue
  pub bounded : length s.inner_queue ≤ size
  pub no_empty_pop : s.pc i ≢ undefined_pop

pub outside_or : (p : Pc) → IsOutside p ⊎ (¬ IsOutside p)
outside_or (push_tests t) = inr (λ h. h)
outside_or (push_adds t) = inr (λ h. h)
outside_or push_signals = inr (λ h. h)
outside_or pop_tests = inr (λ h. h)
outside_or pop_removes = inr (λ h. h)
outside_or (front_tests b) = inr (λ h. h)
outside_or (front_reads b) = inr (λ h. h)
outside_or (unlocks p) = inr (λ h. h)
outside_or undefined_pop = inr (λ h. h)
outside_or _ = inl (ground arith)

pub inside-owner :
    (size : ℕ) (owner : Option ℕ) (ts : List ℕ) (i : ℕ) (p : Pc)
    → Knows size owner ts i p
    → ¬ IsOutside p
    → owner ≡ some i
inside-owner size owner ts i idle h inside = absurd (inside tt)
inside-owner size owner ts i _ h inside = ground arith

Inv-Excludes : (size : ℕ) (s : Shared) (i k : ℕ) → Inv size s → i ≢ k → Excludes size s i k
Inv-Excludes size s i k inv apart = record {
  alone = elim (outside_or (s.pc i)) [
    | inl out ↦ inl out
    | inr i_in ↦ elim (outside_or (s.pc k)) [
      | inl out ↦ inr out
      | inr k_in ↦ absurd (apart (cc (owner i i_in, owner k k_in)))
    ]
  ];
  order = inv.order;
  bounded = inv.bounded;
  no_empty_pop = λ e. subst (Knows size s.owner s.inner_queue i) e (inv.knows i);
}
  where
    owner : (n : ℕ) → ¬ IsOutside (s.pc n) → s.owner ≡ some n
    owner n = inside-owner size s.owner s.inner_queue n (s.pc n) (inv.knows n)

-- Any number of threads call Push, Pop and Front, or Front and then Pop, on a new queue, their lines
-- interleave in any order, signals wake any waiting thread or none, and waits return early or fail:
-- still of two threads one is not between its lock and its unlock, the elements leave in the order in
-- which they were added, the size is kept, and Pop never meets an empty std::queue.
pub interleave-Excludes :
    (size : ℕ) (es : List (ℕ × Choice)) (i k : ℕ)
    → i ≢ k
    → Excludes size (interleave (new_shared size) es) i k
interleave-Excludes size es i k apart =
    Inv-Excludes size (interleave (new_shared size) es) i k
      (interleave-Inv size (new_shared size) es (new_shared-Inv size)) apart
