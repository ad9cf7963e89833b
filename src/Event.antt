-- ===== src/Event.antt =====
-- ffos/ota/src/event: targets send events, the looper queues them and hands each one to the
-- listeners that were registered for its sender and type. An EventTarget is its address, which is
-- also its id; NULL is 0.
mod Tests
pub mod Listeners
pub mod Registry
pub mod Dispatch
pub mod Stored
pub mod Taking
pub mod Refinement
use code_snippet.Common.{
  ℕ, suc, ◌+◌, List, [], ◌∷◌, ◌++◌, Bool, true, false, not, ◌&&◌, ◌||◌, Option, none, some, ltb,
  ◌==◌, if◌then◌else◌, length, text_eq,
}

pub record Event : Type 0 where
  pub type : List ℕ
  pub message : List ℕ
  pub sender_id : ℕ

pub record Listener : Type 0 where
  pub event_sender : ℕ
  pub event_type : List ℕ
  pub event_handler : ℕ

pub record EventLooper : Type 0 where
  pub in_loop : Bool
  pub queue : List Event
  pub listeners : List Listener

-- The size of the event queue.
abbrev pub queue_size : ℕ
queue_size = 1024

abbrev pub matches : ℕ → List ℕ → ℕ → Listener → Bool
matches sender type handler l =
    l.event_sender == sender && (text_eq type l.event_type && l.event_handler == handler)

-- EventLooper::findListener, as the answer whether it returns a listener.
unfoldable pub find_listener : ℕ → List ℕ → ℕ → List Listener → Bool
find_listener sender type handler [] = false
find_listener sender type handler (l ∷ ls) =
    matches sender type handler l || find_listener sender type handler ls

-- EventLooper::removeListener: the first match goes.
unfoldable pub remove_listener : ℕ → List ℕ → ℕ → List Listener → List Listener × Bool
remove_listener sender type handler [] = ([], false)
remove_listener sender type handler (l ∷ ls) =
    let (rest, found) = remove_listener sender type handler ls in
    if matches sender type handler l then (ls, true) else (l ∷ rest, found)

abbrev pub is_empty : List ℕ → Bool
is_empty [] = true
is_empty (c ∷ cs) = false

abbrev pub is_illegal : ℕ → List ℕ → ℕ → Bool
is_illegal sender type handler = sender == 0 || (handler == 0 || is_empty type)

unfoldable pub register_listener : EventLooper → ℕ → List ℕ → ℕ → EventLooper × Bool
unfolding find_listener
register_listener el sender type handler =
    if el.in_loop || is_illegal sender type handler
    then (el, false)
    else if find_listener sender type handler el.listeners
    then (el, true)
    else (
      record el {
        listeners =
            el.listeners
            ++ record { event_sender = sender; event_type = type; event_handler = handler } ∷ [];
      },
      true,
    )

unfoldable pub unregister_listener : EventLooper → ℕ → List ℕ → ℕ → EventLooper × Bool
unfolding remove_listener
unregister_listener el sender type handler =
    if el.in_loop || is_illegal sender type handler
    then (el, false)
    else let (ls, found) = remove_listener sender type handler el.listeners in
      (record el { listeners = ls }, found)

-- EventLooper::QueueEvent; `none` is a call that waits because the queue is full.
unfoldable pub queue_event : EventLooper → ℕ → List ℕ → List ℕ → Option (EventLooper × Bool)
queue_event el sender type message =
    if ltb (length el.queue) queue_size
    then some (
      record el {
        queue = el.queue ++ record { type = type; message = message; sender_id = sender } ∷ [];
      },
      true,
    )
    else none

-- EventTarget::SendEvent with a message.
unfoldable pub send_event : EventLooper → ℕ → List ℕ → List ℕ → Option (EventLooper × Bool)
unfolding queue_event
send_event el self type message =
    if is_empty type || is_empty message then some (el, false) else queue_event el self type message

-- EventTarget::SendEvent without one.
unfoldable pub send_event_type : EventLooper → ℕ → List ℕ → Option (EventLooper × Bool)
unfolding send_event
send_event_type el self type =
    if is_empty type then some (el, false) else send_event el self type []

-- EventTarget::listenEvent and unListenEvent.
unfoldable pub listen_event : EventLooper → ℕ → ℕ → List ℕ → EventLooper × Bool
unfolding register_listener
listen_event el self sender type =
    if sender == 0 || is_empty type then (el, false) else register_listener el sender type self

unfoldable pub un_listen_event : EventLooper → ℕ → ℕ → List ℕ → EventLooper × Bool
unfolding unregister_listener
un_listen_event el self sender type =
    if sender == 0 || is_empty type then (el, false) else unregister_listener el sender type self

-- A call of `onEvent`.
pub record Delivery : Type 0 where
  pub handler : ℕ
  pub type : List ℕ
  pub message : List ℕ

-- The tests of the inner loop of doLoop for one listener.
abbrev pub wants : Event → Listener → Bool
wants e l =
    not (l.event_sender == 0 || l.event_handler == 0)
    && (l.event_sender == e.sender_id && text_eq l.event_type e.type)

-- The calls of `onEvent` for one event. An exception of a handler is caught, so the loop goes on.
unfoldable pub deliveries : Event → List Listener → List Delivery
deliveries e [] = []
deliveries e (l ∷ ls) =
    if wants e l
    then record { handler = l.event_handler; type = e.type; message = e.message } ∷ deliveries e ls
    else deliveries e ls

-- The first line of doLoop.
unfoldable pub enter_loop : EventLooper → EventLooper
enter_loop el = record el { in_loop = true }

-- One round of `while (true)`: `none` while the queue is empty, since Front waits.
unfoldable pub do_loop_round : EventLooper → Option (EventLooper × List Delivery)
unfolding deliveries
do_loop_round el = elim el.queue [
  | [] ↦ none
  | e ∷ rest ↦ some (record el { queue = rest }, deliveries e el.listeners)
]
