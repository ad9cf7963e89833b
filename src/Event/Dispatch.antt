-- ===== src/Event/Dispatch.antt =====
-- Sending and dispatching: `QueueEvent` and `doLoop` of EventLooper.cpp, `SendEvent` of EventTarget.cpp.
use code_snippet.Common.{
  ℕ, suc, ◌≤◌, ◌≡◌, refl, sym, ap, subst, ◌∙◌, inl, inr, List, [], ◌∷◌, ◌++◌, Bool, true, false,
  ◌||◌, Option, none, some, arith, ltb, ◌==◌, if◌then◌else◌, Bool-cases, text_eq_iff, length,
  length-append, append_assoc, append-nil, ltb→lt,
}
use code_snippet.Event.{
  Event, Listener, EventLooper, queue_size, find_listener, is_empty, register_listener,
  unregister_listener, send_event, send_event_type, Delivery, deliveries, do_loop_round, enter_loop,
}
use code_snippet.Event.Listeners.{WellFormed}

-- How often a handler is called.
abbrev pub calls_of : ℕ → List Delivery → ℕ
calls_of h [] = 0
calls_of h (d ∷ ds) = if d.handler == h then suc (calls_of h ds) else calls_of h ds

nobody :
    (e : Event) (h : ℕ) (ls : List Listener)
    → find_listener e.sender_id e.type h ls ≡ false
    → calls_of h (deliveries e ls) ≡ 0
unfolding find_listener deliveries
nobody e h [] f = refl
nobody e h (l ∷ ls) f =
    ground (arith, nobody e h ls, text_eq_iff l.event_type e.type, text_eq_iff e.type l.event_type)

-- For one event each handler is called once if it is registered for the event's sender and type,
-- and otherwise not at all. The list of listeners is well formed.
pub calls_of-deliveries :
    (e : Event) (h : ℕ) (ls : List Listener)
    → WellFormed ls
    → calls_of h (deliveries e ls) ≡ (if find_listener e.sender_id e.type h ls then 1 else 0)
unfolding find_listener deliveries
calls_of-deliveries e h [] w = refl
calls_of-deliveries e h (l ∷ ls) w = ground (
  arith,
  nobody e h ls,
  calls_of-deliveries e h ls w.2,
  text_eq_iff l.event_type e.type,
  text_eq_iff e.type l.event_type,
)

-- SendEvent without a message sends nothing: it calls SendEvent with the empty message, which is
-- refused. This holds of every target, type and looper.
pub send_event_type_refused :
    (el : EventLooper) (self : ℕ) (type : List ℕ) → send_event_type el self type ≡ some (el, false)
unfolding send_event_type
send_event_type_refused el self type = ground arith

-- What can happen to the looper once it has been set up: a target sends, on any thread, handlers
-- included; a listener is registered or unregistered; the loop takes an event.
pub data Action : Type 0 where
  sends : ℕ → List ℕ → List ℕ → Action
  registers : ℕ → List ℕ → ℕ → Action
  unregisters : ℕ → List ℕ → ℕ → Action
  rounds : Action

-- The looper with its history: the events that were accepted, those that were dispatched, and the
-- calls of `onEvent`.
pub record World : Type 0 where
  pub looper : EventLooper
  pub accepted : List Event
  pub dispatched : List Event
  pub calls : List Delivery

abbrev event_of : ℕ → List ℕ → List ℕ → Event
event_of self type message = record { type = type; message = message; sender_id = self }

abbrev front : List Event → List Event
front [] = []
front (e ∷ rest) = e ∷ []

after_send : World → Event → Option (EventLooper × Bool) → World
after_send w e none = w
after_send w e (some (el, false)) = record w { looper = el }
after_send w e (some (el, true)) = record w { looper = el; accepted = w.accepted ++ e ∷ [] }

after_round : World → Option (EventLooper × List Delivery) → World
after_round w none = w
after_round w (some (el, ds)) = record w {
  looper = el;
  dispatched = w.dispatched ++ front w.looper.queue;
  calls = w.calls ++ ds;
}

unfoldable pub act : World → Action → World
unfolding after_send after_round
act w (sends self type message) =
    after_send w (event_of self type message) (send_event w.looper self type message)
act w (registers s t h) = record w { looper = (register_listener w.looper s t h).0 }
act w (unregisters s t h) = record w { looper = (unregister_listener w.looper s t h).0 }
act w rounds = after_round w (do_loop_round w.looper)

unfoldable pub act_all : World → List Action → World
unfolding act
act_all w [] = w
act_all w (a ∷ actions) = act_all (act w a) actions

-- Every event's calls, one event after the other.
abbrev pub calls_for : List Listener → List Event → List Delivery
calls_for ls [] = []
calls_for ls (e ∷ es) = deliveries e ls ++ calls_for ls es

-- In the loop with these listeners: nothing is lost, made up or reordered, the queue stays within
-- its size, the listeners do not change, and the calls are those for the dispatched events.
pub record Inv (ls : List Listener) (w : World) : Type 0 where
  pub looping : w.looper.in_loop ≡ true
  pub frozen : w.looper.listeners ≡ ls
  pub fifo : w.accepted ≡ w.dispatched ++ w.looper.queue
  pub bounded : length w.looper.queue ≤ queue_size
  pub heard : w.calls ≡ calls_for ls w.dispatched

calls_for-snoc :
    (ls : List Listener) (es : List Event) (e : Event)
    → calls_for ls (es ++ e ∷ []) ≡ calls_for ls es ++ deliveries e ls
calls_for-snoc ls [] e = append-nil (deliveries e ls)
calls_for-snoc ls (x ∷ es) e =
    ap (◌++◌ (deliveries x ls)) (calls_for-snoc ls es e)
    ∙ sym (append_assoc (deliveries x ls) (calls_for ls es) (deliveries e ls))

send-Inv :
    (ls : List Listener) (w : World) (self : ℕ) (type message : List ℕ)
    → Inv ls w
    → Inv ls (act w (sends self type message))
unfolding act send_event
send-Inv ls w self type message v = elim (Bool-cases (is_empty type || is_empty message)) [
  | inl no_ ↦ rw no_ v
  | inr ok ↦ elim (Bool-cases (ltb (length w.looper.queue) queue_size)) [
    | inl room ↦ rw ok (
        rw room (record {
          looping = v.looping;
          frozen = v.frozen;
          fifo =
              ap (λ (es : List Event). es ++ event_of self type message ∷ []) v.fifo
              ∙ append_assoc w.dispatched w.looper.queue (event_of self type message ∷ []);
          bounded = omega (
            arith,
            ltb→lt _ _ room,
            length-append w.looper.queue (event_of self type message ∷ []),
          );
          heard = v.heard;
        }))
    | inr full ↦ rw ok (rw full v)
  ]
]

round_none : (el : EventLooper) → el.queue ≡ [] → do_loop_round el ≡ none
unfolding do_loop_round
round_none el e = rw (e, do_loop_round)

round_some :
    (el : EventLooper) (x : Event) (rest : List Event)
    → el.queue ≡ x ∷ rest
    → do_loop_round el ≡ some (record el { queue = rest }, deliveries x el.listeners)
unfolding do_loop_round
round_some el x rest e = rw (e, do_loop_round)

round-Inv :
    (ls : List Listener) (w : World) (queue : List Event)
    → w.looper.queue ≡ queue
    → Inv ls w
    → Inv ls (act w rounds)
unfolding act
round-Inv ls w [] e v = subst (λ r. Inv ls (after_round w r)) (sym (round_none w.looper e)) v
round-Inv ls w (x ∷ rest) e v =
    subst (λ r. Inv ls (after_round w r)) (sym (round_some w.looper x rest e))
      (record {
        looping = v.looping;
        frozen = v.frozen;
        fifo =
            v.fifo
            ∙ (λ k. w.dispatched ++ e k)
            ∙ sym (append_assoc w.dispatched (x ∷ []) rest)
            ∙ (λ k. (w.dispatched ++ front (sym e k)) ++ rest);
        bounded = omega (arith, v.bounded, ap length e);
        heard =
            (λ k. v.heard k ++ deliveries x (v.frozen k))
            ∙ sym (calls_for-snoc ls w.dispatched x)
            ∙ (λ k. calls_for ls (w.dispatched ++ front (sym e k)));
      })

act-Inv : (ls : List Listener) (w : World) (a : Action) → Inv ls w → Inv ls (act w a)
act-Inv ls w (sends self type message) v = send-Inv ls w self type message v
act-Inv ls w (registers s t h) v = refused_register
  where
    refused_register : Inv ls (act w (registers s t h))
    refused_register = unfold act register_listener in ground arith
act-Inv ls w (unregisters s t h) v = unfold act unregister_listener in ground arith
act-Inv ls w rounds v = round-Inv ls w w.looper.queue refl v

act_all-Inv :
    (ls : List Listener) (w : World) (actions : List Action) → Inv ls w → Inv ls (act_all w actions)
unfolding act_all
act_all-Inv ls w [] v = v
act_all-Inv ls w (a ∷ actions) v = act_all-Inv ls (act w a) actions (act-Inv ls w a v)

abbrev pub started : EventLooper → World
started el = record { looper = enter_loop el; accepted = el.queue; dispatched = []; calls = [] }

-- From the moment the loop is entered, with a queue within its size and whatever targets send,
-- register and unregister in between: the accepted events are dispatched first in, first out, none
-- lost or repeated; the queue stays within 1024; no listener is added or removed any more; and the
-- calls of `onEvent` are, event by event, those for the listeners of that moment.
pub act_all-started :
    (el : EventLooper) (actions : List Action)
    → length el.queue ≤ queue_size
    → Inv el.listeners (act_all (started el) actions)
act_all-started el actions h = act_all-Inv el.listeners (started el) actions (begin h)
  where
    begin : length el.queue ≤ queue_size → Inv el.listeners (started el)
    begin h =
        unfold enter_loop in
        record { looping = refl; frozen = refl; fifo = refl; bounded = h; heard = refl }
