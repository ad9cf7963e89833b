-- ===== src/Event/Stored.antt =====
-- ffos/ota/src/event/EventLooper.cpp with its MutexQueue of pointers: the constructor, QueueEvent,
-- the round of doLoop and the destructor, over the heap of the events.
use code_snippet.Common.{
  ℕ, List, [], ◌∷◌, ◌++◌, Bool, false, ◌||◌, Option, none, some, if◌then◌else◌, length,
}
use code_snippet.Queue.{MutexQueue, Outcome, returns, blocks, undefined_front, pop, front}
use code_snippet.Queue.Owned.{
  Store, Result, gives, waits, undefined, new_store, set, push_new, drain,
}
use code_snippet.Event.{
  Event, Listener, EventLooper, queue_size, is_empty, send_event, Delivery, deliveries,
  do_loop_round,
}

pub record Looper : Type 0 where
  pub in_loop : Bool
  pub store : Store Event
  pub listeners : List Listener

-- EventLooper::EventLooper
unfoldable pub new_looper : Looper
new_looper = record { in_loop = false; store = new_store queue_size; listeners = [] }

-- EventLooper::QueueEvent
unfoldable pub queue_stored : Store Event → ℕ → List ℕ → List ℕ → Result Event Bool
queue_stored s sender type message =
    push_new s (record { type = type; message = message; sender_id = sender })

-- The uses of the event in one round, and its deletion.
abbrev pub dispatch_at :
    Store Event → MutexQueue → ℕ → List Listener → Option Event → Result Event (List Delivery)
dispatch_at s q p ls none = undefined
dispatch_at s q p ls (some e) =
    gives (record s { queue = q; heap = set s.heap p none }) (deliveries e ls)

abbrev pub after_pop : Store Event → ℕ → List Listener → Outcome Bool → Result Event (List Delivery)
after_pop s p ls (returns q removed) = dispatch_at s q p ls (s.heap p)
after_pop s p ls blocks = waits
after_pop s p ls undefined_front = undefined

abbrev pub after_front : Store Event → List Listener → Outcome ℕ → Result Event (List Delivery)
after_front s ls (returns q p) = after_pop s p ls (pop q)
after_front s ls blocks = waits
after_front s ls undefined_front = undefined

-- One round of doLoop: Front, Pop, the calls of the handlers, `delete`.
unfoldable pub dispatch_stored : Store Event → List Listener → Result Event (List Delivery)
dispatch_stored s ls = after_front s ls (front s.queue none)

-- The loop of EventLooper::~EventLooper over the queue, with the events that it deletes.
unfoldable pub destroy : Looper → Result Event (List Event)
destroy l = drain (length l.store.queue.inner_queue) l.store

-- What the threads do to the looper: SendEvent, and a round of the loop. A call that waits leaves
-- everything to the others.
pub data Use : Type 0 where
  sending : ℕ → List ℕ → List ℕ → Use
  dispatching : Use

-- `none` is undefined behaviour.
abbrev pub after_send : Looper → Result Event Bool → Option (Looper × List Delivery)
after_send l (gives s b) = some (record l { store = s }, [])
after_send l waits = some (l, [])
after_send l undefined = none

abbrev pub after_round : Looper → Result Event (List Delivery) → Option (Looper × List Delivery)
after_round l (gives s ds) = some (record l { store = s }, ds)
after_round l waits = some (l, [])
after_round l undefined = none

unfoldable pub use_stored : Looper → Use → Option (Looper × List Delivery)
use_stored l (sending self type message) =
    if is_empty type || is_empty message
    then some (l, [])
    else after_send l (queue_stored l.store self type message)
use_stored l dispatching = after_round l (dispatch_stored l.store l.listeners)

abbrev pub and_calls :
    List Delivery → Option (Looper × List Delivery) → Option (Looper × List Delivery)
and_calls ds none = none
and_calls ds (some (l, more)) = some (l, ds ++ more)

unfoldable pub run_stored : Looper → List Use → Option (Looper × List Delivery)
unfolding use_stored
run_stored l [] = some (l, [])
run_stored l (u ∷ us) = elim (use_stored l u) [
  | none ↦ none
  | some (l', ds) ↦ and_calls ds (run_stored l' us)
]

-- The same on the looper that has its events in the queue.
abbrev pub after_send_event :
    EventLooper → Option (EventLooper × Bool) → EventLooper × List Delivery
after_send_event el none = (el, [])
after_send_event el (some (el', sent)) = (el', [])

abbrev pub after_loop_round :
    EventLooper → Option (EventLooper × List Delivery) → EventLooper × List Delivery
after_loop_round el none = (el, [])
after_loop_round el (some (el', ds)) = (el', ds)

unfoldable pub use_events : EventLooper → Use → EventLooper × List Delivery
use_events el (sending self type message) = after_send_event el (send_event el self type message)
use_events el dispatching = after_loop_round el (do_loop_round el)

unfoldable pub run_events : EventLooper → List Use → EventLooper × List Delivery
unfolding use_events
run_events el [] = (el, [])
run_events el (u ∷ us) =
    let (el', ds) = use_events el u in let (last, more) = run_events el' us in (last, ds ++ more)
