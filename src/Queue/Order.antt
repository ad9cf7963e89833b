-- ===== src/Queue/Order.antt =====
-- First in, first out, and the bound, for whole calls one after another.
use code_snippet.Common.{
  ℕ, ◌≤◌, ◌≡◌, ◌≢◌, refl, sym, ap, ◌∙◌, inl, inr, List, [], ◌∷◌, ◌++◌, Bool, true, false, none,
  arith, ◌==◌, ==_iff, length, Bool-cases, append_assoc, length-append,
}
use code_snippet.Queue.{
  MutexQueue, new_queue, Outcome, returns, blocks, undefined_front, push, pop, front,
}

-- What the threads do: a push, or Front and then Pop, as EventLooper::doLoop and
-- ServerDaemonImpl::flushMessage call them.
pub data Use : Type 0 where
  pushes : ℕ → Use
  takes : Use

-- The queue with its history.
pub record World : Type 0 where
  pub queue : MutexQueue
  pub pushed : List ℕ
  pub taken : List ℕ

abbrev after_push : World → ℕ → Outcome Bool → World
after_push w t (returns q true) = record { queue = q; pushed = w.pushed ++ t ∷ []; taken = w.taken }
after_push w t (returns q false) = record w { queue = q }
after_push w t blocks = w
after_push w t undefined_front = w

abbrev after_pop : World → ℕ → Outcome Bool → World
after_pop w t (returns q b) = record { queue = q; pushed = w.pushed; taken = w.taken ++ t ∷ [] }
after_pop w t blocks = w
after_pop w t undefined_front = w

abbrev after_front : World → Outcome ℕ → World
after_front w (returns q t) = after_pop w t (pop q)
after_front w blocks = w
after_front w undefined_front = w

-- A call that waits leaves the queue to the other threads as it is.
abbrev pub use_one : World → Use → World
use_one w (pushes t) = after_push w t (push w.queue t [])
use_one w takes = after_front w (front w.queue none)

abbrev pub use_all : World → List Use → World
use_all w [] = w
use_all w (u ∷ us) = use_all (use_one w u) us

-- The lock is free, nothing is lost, made up or reordered, and the bound holds.
pub record Fifo (size : ℕ) (w : World) : Type 0 where
  pub free : w.queue.locked ≡ false
  pub same_size : w.queue.size ≡ size
  pub order : w.pushed ≡ w.taken ++ w.queue.inner_queue
  pub bounded : length w.queue.inner_queue ≤ size

abbrev world : ℕ → List ℕ → Bool → List ℕ → List ℕ → World
world size ts locked pushed taken = record {
  queue = record { size = size; inner_queue = ts; locked = locked };
  pushed = pushed;
  taken = taken;
}

not_locked : {b : Bool} → b ≡ true → b ≡ false → ⊥
not_locked h h' = cc (h, h')

push-Fifo :
    (size n t : ℕ) (ts : List ℕ) (locked : Bool) (pushed taken : List ℕ)
    → Fifo size (world n ts locked pushed taken)
    → Fifo size (use_one (world n ts locked pushed taken) (pushes t))
unfolding push
push-Fifo size n t ts true pushed taken v = absurd (not_locked refl v.free)
push-Fifo size n t ts false pushed taken v = elim (Bool-cases (length ts == n)) [
  | inl full ↦ rw full v
  | inr room ↦ rw room (record {
    free = refl;
    same_size = v.same_size;
    order = ap (λ (xs : List ℕ). xs ++ t ∷ []) v.order ∙ append_assoc taken ts (t ∷ []);
    bounded = omega (arith, length-append ts (t ∷ []), v.bounded, v.same_size, not_full room);
  })
]
  where
    not_full : (length ts == n) ≡ false → length ts ≢ n
    not_full h e = not_locked ((==_iff (length ts) n).1 e) h

take-Fifo :
    (size n : ℕ) (ts : List ℕ) (locked : Bool) (pushed taken : List ℕ)
    → Fifo size (world n ts locked pushed taken)
    → Fifo size (use_one (world n ts locked pushed taken) takes)
unfolding front pop
take-Fifo size n ts true pushed taken v = absurd (not_locked refl v.free)
take-Fifo size n [] false pushed taken v = v
take-Fifo size n (t ∷ ts) false pushed taken v = record {
  free = refl;
  same_size = v.same_size;
  order = v.order ∙ sym (append_assoc taken (t ∷ []) ts);
  bounded = omega (arith, v.bounded);
}

use_all-Fifo : (size : ℕ) (w : World) (us : List Use) → Fifo size w → Fifo size (use_all w us)
use_all-Fifo size w [] v = v
use_all-Fifo size w (pushes t ∷ us) v =
    use_all-Fifo size (use_one w (pushes t)) us
      (push-Fifo size w.queue.size t w.queue.inner_queue w.queue.locked w.pushed w.taken v)
use_all-Fifo size w (takes ∷ us) v =
    use_all-Fifo size (use_one w takes) us
      (take-Fifo size w.queue.size w.queue.inner_queue w.queue.locked w.pushed w.taken v)

abbrev pub empty_world : ℕ → World
empty_world size = record { queue = new_queue size; pushed = []; taken = [] }

-- Whatever pushes and takes follow on a new queue, each take being Front and then Pop: the lock is
-- free between the calls, the elements come out in the order in which they were pushed, none lost or
-- repeated, and the queue never holds more than its size.
pub new_queue-Fifo : (size : ℕ) (us : List Use) → Fifo size (use_all (empty_world size) us)
unfolding new_queue
new_queue-Fifo size us =
    use_all-Fifo size (empty_world size) us
      (record { free = refl; same_size = refl; order = refl; bounded = omega arith })
