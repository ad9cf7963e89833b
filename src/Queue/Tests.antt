-- ===== src/Queue/Tests.antt =====
-- Runs of the queue on concrete inputs.
use code_snippet.Common.{
  ◌⊎◌, arith, ℕ, zero, suc, ◌≡◌, ◌∷◌, ◌++◌, refl, List, [], true, false, none,
}
use code_snippet.Queue.{MutexQueue, returns, blocks, pop, delete_queue}
use code_snippet.Queue.Threads.{
  idle, push_waits, push_signals, undefined_front, Shared, new_shared, Choice, calls_push,
  calls_pop, takes, runs, wakes_up, line, step, interleave,
}
use code_snippet.Queue.Lines.{Excludes, interleave-Excludes}
use code_snippet.Queue.Plan.{ArePlanned}
use code_snippet.Queue.Locked.{IsHeld, pop_blocks_forever}
use code_snippet.Queue.Stuck.{consumer_deadlock}
use code_snippet.Queue.Wakeup.{no_lost_wakeup}
use code_snippet.Queue.Consumer.{Serves, interleave-Serves}
use code_snippet.Queue.Waiting.{AreSignalled, push_waits_forever}

abbrev nothing : MutexQueue
nothing = record { size = 2; inner_queue = []; locked = false }

kept : pop nothing ≡ returns (record nothing { locked = true }) false
unfolding pop
kept = refl

destroyed : delete_queue (record nothing { locked = true }) ≡ blocks
unfolding delete_queue
destroyed = refl

abbrev goes_on : ℕ → ℕ → List (ℕ × Choice)
goes_on i zero = []
goes_on i (suc n) = (i, runs 0) ∷ goes_on i n

goes_on-ArePlanned : (c i n : ℕ) → ArePlanned c (goes_on i n)
goes_on-ArePlanned c i zero = tt
goes_on-ArePlanned c i (suc n) = (tt, goes_on-ArePlanned c i n)

goes_on-AreSignalled : (i n : ℕ) → AreSignalled (goes_on i n)
goes_on-AreSignalled i zero = tt
goes_on-AreSignalled i (suc n) = (tt, goes_on-AreSignalled i n)

-- Thread 3 adds 8, and its signal wakes thread 1 if that waits.
abbrev adding : List (ℕ × Choice)
adding = (3, calls_push 8) ∷ goes_on 3 3 ++ (3, runs 1) ∷ (3, runs 0) ∷ []

-- Thread 1 waits in Front, then there is a push.
abbrev waited : List (ℕ × Choice)
waited = (1, takes) ∷ goes_on 1 2 ++ adding

-- Thread 2 takes the element before thread 1, which was woken for it, has the lock.
two_consumers :
    (interleave (new_shared 2) (waited ++ (2, takes) ∷ goes_on 2 8 ++ goes_on 1 2)).pc 1
    ≡ undefined_front
unfolding interleave step line
two_consumers = refl

one_consumer : (interleave (new_shared 2) (waited ++ goes_on 1 7)).removed ≡ 8 ∷ []
unfolding interleave step line
one_consumer = refl

interleave-Excludes_example :
    Excludes 2
      (interleave (new_shared 2) (waited ++ (2, calls_pop) ∷ goes_on 2 4 ++ (1, wakes_up) ∷ []))
      1
      2
interleave-Excludes_example =
    interleave-Excludes 2 (waited ++ (2, calls_pop) ∷ goes_on 2 4 ++ (1, wakes_up) ∷ []) 1 2
      (λ e. absurd (omega (arith, e)))

interleave-Serves_example : Serves (interleave (new_shared 2) (waited ++ goes_on 1 7)) 1
interleave-Serves_example =
    interleave-Serves 2 1 (waited ++ goes_on 1 7) 1
      (refl, (tt, (tt, (tt, (tt, (tt, (tt, (tt, (tt, goes_on-ArePlanned 1 1 7)))))))))

-- Thread 0 waits in Front, thread 3 has added 8 and has not sent the signal.
abbrev added : List (ℕ × Choice)
added = (0, takes) ∷ goes_on 0 2 ++ (3, calls_push 8) ∷ goes_on 3 3

no_lost_wakeup_example :
    let s = interleave (new_shared 2) added in
    (s.inner_queue ≡ []) ⊎ ((k : ℕ) × (s.pc k ≡ push_signals))
unfolding interleave step line
no_lost_wakeup_example =
    no_lost_wakeup 2 0 added true (refl, (refl, (refl, (tt, (refl, (refl, (refl, tt))))))) refl

-- Thread 1, which takes, pushes 9 onto the full queue.
abbrev filled : List (ℕ × Choice)
filled = (2, calls_push 8) ∷ goes_on 2 5 ++ (1, calls_push 9) ∷ goes_on 1 2

consumer_deadlock_example :
    let s = interleave (new_shared 1) filled in
    (interleave s ((2, calls_push 7) ∷ goes_on 2 9)).removed ≡ s.removed
unfolding interleave step line
consumer_deadlock_example =
    consumer_deadlock 1 1 9 filled ((2, calls_push 7) ∷ goes_on 2 9)
      (tt, (tt, (tt, (tt, (tt, (tt, (tt, (tt, (tt, tt))))))))) (tt, goes_on-ArePlanned 1 2 9) refl

abbrev one_element : Shared
one_element = record {
  size = 1;
  inner_queue = 8 ∷ [];
  owner = none;
  pc = λ i. idle;
  added = 8 ∷ [];
  removed = [];
}

-- Thread 1 waits to push 9, thread 2 takes 8.
abbrev full_then_taken : List (ℕ × Choice)
full_then_taken = (1, calls_push 9) ∷ goes_on 1 2 ++ (2, takes) ∷ goes_on 2 8

-- The queue is empty and its lock is free, and thread 1 still waits for room.
drained :
    let s = interleave one_element full_then_taken in
    (s.inner_queue ≡ []) × (s.owner ≡ none) × (s.pc 1 ≡ push_waits 9)
unfolding interleave step line
drained = (refl, refl, refl)

push_waits_forever_example : (interleave one_element full_then_taken).pc 1 ≡ push_waits 9
push_waits_forever_example =
    push_waits_forever one_element 1 9 ((2, takes) ∷ goes_on 2 8) refl refl refl
      (tt, goes_on-AreSignalled 2 8)

-- Thread 2 pops the empty queue, and then thread 3 pushes and thread 2 pops again.
abbrev popped_then_pushed : List (ℕ × Choice)
popped_then_pushed = (3, calls_push 8) ∷ goes_on 3 5 ++ (2, calls_pop) ∷ goes_on 2 9

abbrev taken_again : List (ℕ × Choice)
taken_again = (3, calls_push 8) ∷ goes_on 3 5 ++ (2, calls_pop) ∷ goes_on 2 4

pop_blocks_forever_example : IsHeld 2 (interleave (new_shared 1) taken_again) (
    interleave
      (interleave (new_shared 1) taken_again)
      ((2, calls_pop) ∷ (2, runs 0) ∷ (2, runs 0) ∷ popped_then_pushed))
unfolding interleave step line
pop_blocks_forever_example = pop_blocks_forever 1 2 taken_again popped_then_pushed refl refl refl
