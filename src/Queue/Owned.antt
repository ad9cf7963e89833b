-- ===== src/Queue/Owned.antt =====
-- The objects that a MutexQueue holds pointers to, as ffos/ota/src/event/EventLooper.cpp and
-- ffos/ota/src/ota/daemon/ServerDaemonImpl.cpp use it: an object is allocated and its pointer pushed;
-- the thread that takes it out reads it and deletes it. The heap is a function from addresses to
-- objects, `none` where there is none.
use code_snippet.Common.{
  ℕ, zero, suc, List, [], ◌∷◌, Bool, Option, none, some, ltb, ◌==◌, if◌then◌else◌, length,
}
use code_snippet.Queue.{
  MutexQueue, new_queue, Outcome, returns, blocks, undefined_front, push, pop, front,
}

pub record Store (A : Type 0) : Type 0 where
  pub queue : MutexQueue
  pub heap : ℕ → Option A
  -- the next address
  pub next : ℕ

-- How a call ends: `undefined` is a deleted object that is used, or `front` of an empty std::queue.
pub data Result (A B : Type 0) : Type 0 where
  gives : Store A → B → Result A B
  waits : Result A B
  undefined : Result A B

-- NULL is 0.
unfoldable pub new_store : {A : Type 0} → ℕ → Store A
unfolding new_queue
new_store size = record { queue = new_queue size; heap = λ p. none; next = 1 }

abbrev pub set : {A : Type 0} → (ℕ → Option A) → ℕ → Option A → ℕ → Option A
set heap p a = λ q. if q == p then a else heap q

abbrev pub after_push : {A : Type 0} → Store A → Outcome Bool → Result A Bool
after_push s (returns q added) = gives (record s { queue = q }) added
after_push s blocks = waits
after_push s undefined_front = undefined

-- `Push(new T(...))`
unfoldable pub push_new : {A : Type 0} → Store A → A → Result A Bool
push_new s a =
    after_push (record s { heap = set s.heap s.next (some a); next = suc s.next })
      (push s.queue s.next [])

abbrev pub after_pop : {A : Type 0} → Store A → A → Outcome Bool → Result A A
after_pop s a (returns q removed) = gives (record s { queue = q }) a
after_pop s a blocks = waits
after_pop s a undefined_front = undefined

-- `delete t; Pop();`, with the object that was read, if the address has one.
abbrev pub delete_then_pop : {A : Type 0} → Store A → MutexQueue → ℕ → Option A → Result A A
delete_then_pop s q p none = undefined
delete_then_pop s q p (some a) = after_pop (record s { heap = set s.heap p none }) a (pop q)

-- Front, `delete`, and Pop, as in flushMessage and in the destructors.
abbrev pub after_front : {A : Type 0} → Store A → Outcome ℕ → Result A A
after_front s (returns q p) = delete_then_pop s q p (s.heap p)
after_front s blocks = waits
after_front s undefined_front = undefined

unfoldable pub take_out : {A : Type 0} → Store A → Result A A
take_out s = after_front s (front s.queue none)

abbrev pub and_object : {A : Type 0} → A → Result A (List A) → Result A (List A)
and_object a (gives s objects) = gives s (a ∷ objects)
and_object a waits = waits
and_object a undefined = undefined

-- `while (Size() > 0)`, with the objects in the order in which they are taken out.
unfoldable pub drain : {A : Type 0} → ℕ → Store A → Result A (List A)
unfolding take_out
drain zero s = gives s []
drain (suc fuel) s =
    if ltb 0 (length s.queue.inner_queue)
    then elim (take_out s) [
      | gives s' a ↦ and_object a (drain fuel s')
      | waits ↦ waits
      | undefined ↦ undefined
    ]
    else gives s []
