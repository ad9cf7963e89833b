-- ===== src/Queue.antt =====
-- ffos/ota/include/utils/MutexQueue.h: the bounded queue that the threads share. An operation is
-- called with the lock free or held, and what `pthread_cond_wait` comes back with is an argument. The
-- elements are pointers, as numbers; NULL is 0.
pub mod Order
pub mod Threads
pub mod Exclusion
pub mod Lines
pub mod Plan
pub mod Consumer
pub mod Locked
pub mod Waiting
pub mod Stuck
pub mod Alert
pub mod Wakeup
pub mod Owned
pub mod Addresses
pub mod Ownership
pub mod Draining
mod Tests
use code_snippet.Common.{
  ℕ, ◌+◌, List, [], ◌∷◌, ◌++◌, Bool, true, false, Option, none, some, ◌==◌, if◌then◌else◌, length,
}

pub record MutexQueue : Type 0 where
  pub size : ℕ
  pub inner_queue : List ℕ
  pub locked : Bool

-- The constructor.
unfoldable pub new_queue : ℕ → MutexQueue
new_queue size = record { size = size; inner_queue = []; locked = false }

-- What a wait for a condition comes to: an error, or the elements at the time when the thread has the
-- lock again.
pub data Wake : Type 0 where
  wait_error : Wake
  woken : List ℕ → Wake

-- How a call ends. `blocks` is a call that waits for the lock or a condition.
pub data Outcome (A : Type 0) : Type 0 where
  returns : MutexQueue → A → Outcome A
  blocks : Outcome A
  -- `front` of an empty std::queue
  undefined_front : Outcome A

-- The `while` of Push, with the lock held; the answer says whether the element was added.
unfoldable pub push_loop : MutexQueue → ℕ → List Wake → Outcome Bool
push_loop q t [] =
    if length q.inner_queue == q.size
    then blocks
    else returns (record q { inner_queue = q.inner_queue ++ t ∷ [] }) true
push_loop q t (wake ∷ wakes) =
    let after_error : Outcome Bool = returns q false in
    let again = λ (ts : List ℕ). push_loop (record q { inner_queue = ts }) t wakes in
    if length q.inner_queue == q.size
    then elim wake [ wait_error ↦ after_error | woken ts ↦ again ts ]
    else returns (record q { inner_queue = q.inner_queue ++ t ∷ [] }) true

unfoldable pub push : MutexQueue → ℕ → List Wake → Outcome Bool
unfolding push_loop
push q t wakes = if q.locked then blocks else push_loop q t wakes

-- The early return of Pop leaves the lock held.
unfoldable pub pop : MutexQueue → Outcome Bool
pop q = if q.locked then blocks else elim q.inner_queue [
  | [] ↦ returns (record q { locked = true }) false
  | t ∷ ts ↦ returns (record q { inner_queue = ts }) true
]

abbrev pub first_of : MutexQueue → List ℕ → Outcome ℕ
first_of q [] = undefined_front
first_of q (t ∷ ts) = returns (record q { inner_queue = t ∷ ts }) t

-- Front waits once; the return after an error leaves the lock held.
unfoldable pub front : MutexQueue → Option Wake → Outcome ℕ
front q wake = if q.locked then blocks else elim q.inner_queue [
  | t ∷ ts ↦ returns q t
  | [] ↦ elim wake [
    | none ↦ blocks
    | some wait_error ↦ returns (record q { locked = true }) 0
    | some (woken ts) ↦ first_of q ts
  ]
]

-- The loop of the destructor, which takes the pointers out and leaves the objects to others.
abbrev pop_all : List ℕ → List ℕ
pop_all [] = []
pop_all (t ∷ ts) = pop_all ts

-- ~MutexQueue
unfoldable pub delete_queue : MutexQueue → Outcome Bool
delete_queue q =
    if q.locked then blocks else returns (record q { inner_queue = pop_all q.inner_queue }) true
