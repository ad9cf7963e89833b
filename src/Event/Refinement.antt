-- ===== src/Event/Refinement.antt =====
-- ffos/ota/src/event/EventLooper.cpp: the looper with its pointers against the looper with its list of
-- events.
use code_snippet.Common.{
  ℕ, ◌≤◌, ◌<◌, ◌≡◌, refl, ap, inl, inr, List, [], ◌∷◌, ◌++◌, Bool, true, false, ◌||◌, Option, none,
  some, arith, ltb, ◌==◌, ==_iff, if◌then◌else◌, length, Bool-cases, ltb→lt, subst, length-append,
}
use code_snippet.Queue.Owned.{Result, gives, waits, undefined, push_new, take_out}
use code_snippet.Queue.Ownership.{
  Implements, Pushes, Takes, push_new-Pushes, take_out-Takes, new_store-Implements,
  Implements-length,
}
use code_snippet.Queue.Draining.{drain-Deletes, Deletes}
use code_snippet.Event.{
  Event, Listener, EventLooper, queue_size, is_empty, queue_event, send_event, Delivery, deliveries,
  do_loop_round,
}
use code_snippet.Event.Stored.{
  Looper, new_looper, queue_stored, dispatch_stored, Use, sending, dispatching, use_stored,
  run_stored, use_events, run_events, destroy, after_send, after_send_event, after_round,
  after_loop_round, and_calls,
}
use code_snippet.Event.Taking.{calls_for, dispatch-calls}

pub record Looks (l : Looper) (el : EventLooper) : Type 0 where
  pub same_loop : l.in_loop ≡ el.in_loop
  pub same_listeners : l.listeners ≡ el.listeners
  pub bounded : length el.queue ≤ queue_size
  pub stored : Implements queue_size l.store el.queue

abbrev pub Agrees : Option (Looper × List Delivery) → EventLooper × List Delivery → Type 0
Agrees none (el, ds) = ⊥
Agrees (some (l, ds)) (el, ds') = Looks l el × (ds ≡ ds')

waiting-Agrees :
    (l : Looper) (el : EventLooper) (r : Result Event Bool)
    → Looks l el
    → Pushes queue_size r none
    → Agrees (after_send l r) (el, [])
waiting-Agrees l el (gives s b) h pushed = absurd pushed
waiting-Agrees l el waits h pushed = (h, refl)
waiting-Agrees l el undefined h pushed = absurd pushed

queued-Agrees :
    (l : Looper) (el : EventLooper) (e : Event) (r : Result Event Bool)
    → Looks l el
    → length el.queue < queue_size
    → Pushes queue_size r (some (el.queue ++ e ∷ []))
    → Agrees (after_send l r) (record el { queue = el.queue ++ e ∷ [] }, [])
queued-Agrees l el e (gives s b) h room pushed = (
  record {
    same_loop = h.same_loop;
    same_listeners = h.same_listeners;
    bounded = omega (arith, length-append el.queue (e ∷ []));
    stored = pushed.0;
  },
  refl,
)
queued-Agrees l el e waits h room pushed = absurd pushed
queued-Agrees l el e undefined h room pushed = absurd pushed

queue_stored-Agrees :
    (l : Looper) (el : EventLooper) (self : ℕ) (type message : List ℕ)
    → Looks l el
    → Agrees
        (after_send l (queue_stored l.store self type message))
        (after_send_event el (queue_event el self type message))
unfolding queue_stored queue_event
queue_stored-Agrees l el self type message h = elim (Bool-cases (length el.queue == queue_size)) [
  | inl full ↦ rw (no_room full) (waiting-Agrees l el (push_new l.store e) h (rw full at pushed))
  | inr room ↦ rw (has_room room) (
      queued-Agrees l el e (push_new l.store e) h
        (ltb→lt (length el.queue) queue_size (has_room room)) (rw room at pushed))
]
  where
    e : Event
    e = record { type = type; message = message; sender_id = self }

    pushed :
        Pushes queue_size
          (push_new l.store e)
          (if length el.queue == queue_size then none else some (el.queue ++ e ∷ []))
    pushed = push_new-Pushes queue_size l.store el.queue e h.stored

    no_room : (length el.queue == queue_size) ≡ true → ltb (length el.queue) queue_size ≡ false
    no_room full = ground (arith, (==_iff (length el.queue) queue_size).0 full)

    has_room : (length el.queue == queue_size) ≡ false → ltb (length el.queue) queue_size ≡ true
    has_room room = ground (arith, h.bounded)

round-Agrees :
    (l : Looper) (loop : Bool) (es : List Event) (r : Result Event Event)
    → Looks l (record { in_loop = loop; queue = es; listeners = l.listeners })
    → Takes queue_size r es
    → let el : EventLooper = record { in_loop = loop; queue = es; listeners = l.listeners } in
      Agrees (after_round l (calls_for l.listeners r)) (after_loop_round el (do_loop_round el))
unfolding do_loop_round
round-Agrees l loop [] (gives s a) h taken = absurd taken
round-Agrees l loop [] waits h taken = (h, refl)
round-Agrees l loop [] undefined h taken = absurd taken
round-Agrees l loop (e ∷ es) (gives s a) h taken = (
  record {
    same_loop = h.same_loop;
    same_listeners = refl;
    bounded = omega (arith, h.bounded);
    stored = taken.0;
  },
  ap (λ (e' : Event). deliveries e' l.listeners) taken.1,
)
round-Agrees l loop (e ∷ es) waits h taken = absurd taken
round-Agrees l loop (e ∷ es) undefined h taken = absurd taken

dispatch_stored-Agrees :
    (l : Looper) (el : EventLooper)
    → Looks l el
    → Agrees
        (after_round l (dispatch_stored l.store l.listeners))
        (after_loop_round el (do_loop_round el))
dispatch_stored-Agrees l el h =
    rw (dispatch-calls l.store l.store.queue.locked l.listeners h.stored.free) (
      subst
        (λ (ls : List Listener).
          let el' : EventLooper = record {
            in_loop = el.in_loop;
            queue = el.queue;
            listeners = ls;
          } in
          Agrees (after_round l (calls_for l.listeners (take_out l.store)))
            (after_loop_round el' (do_loop_round el')))
        h.same_listeners
        (round-Agrees l el.in_loop el.queue (take_out l.store)
          (record {
            same_loop = h.same_loop;
            same_listeners = refl;
            bounded = h.bounded;
            stored = h.stored;
          })
          (take_out-Takes queue_size l.store el.queue h.stored)))

use_stored-Agrees :
    (l : Looper) (el : EventLooper) (u : Use)
    → Looks l el
    → Agrees (use_stored l u) (use_events el u)
unfolding use_stored use_events send_event
use_stored-Agrees l el (sending self type message) h =
    elim (Bool-cases (is_empty type || is_empty message)) [
      | inl empty ↦ rw empty (h, refl)
      | inr filled ↦ rw filled (queue_stored-Agrees l el self type message h)
    ]
use_stored-Agrees l el dispatching h = dispatch_stored-Agrees l el h

and_calls-Agrees :
    (ds ds' : List Delivery) (r : Option (Looper × List Delivery)) (el : EventLooper)
    (more : List Delivery)
    → ds ≡ ds'
    → Agrees r (el, more)
    → Agrees (and_calls ds r) (el, ds' ++ more)
and_calls-Agrees ds ds' none el more e h = absurd h
and_calls-Agrees ds ds' (some (l, more')) el more e h = (h.0, λ i. e i ++ h.1 i)

run_next :
    (r : Option (Looper × List Delivery)) (el : EventLooper) (ds : List Delivery) (us : List Use)
    → Agrees r (el, ds)
    → ((l : Looper) → Looks l el → Agrees (run_stored l us) (run_events el us))
    → Agrees
        (elim r [ none ↦ none | some (l', ds') ↦ and_calls ds' (run_stored l' us) ])
        ((run_events el us).0, ds ++ (run_events el us).1)
run_next none el ds us h rest = absurd h
run_next (some (l, ds')) el ds us h rest =
    and_calls-Agrees ds' ds (run_stored l us) (run_events el us).0 (run_events el us).1 h.1
      (rest l h.0)

-- A looper that stands for a list of events behaves as that list does: whatever sends and dispatching
-- follow, nothing undefined happens, no deleted event being used and no empty queue being read, the
-- handlers are called for the same events in the same order, and the looper goes on standing for the
-- list.
pub run_stored-Agrees :
    (l : Looper) (el : EventLooper) (us : List Use)
    → Looks l el
    → Agrees (run_stored l us) (run_events el us)
unfolding run_stored run_events
run_stored-Agrees l el [] h = (h, refl)
run_stored-Agrees l el (u ∷ us) h =
    run_next (use_stored l u) (use_events el u).0 (use_events el u).1 us
      (use_stored-Agrees l el u h) (λ l' h'. run_stored-Agrees l' (use_events el u).0 us h')

pub new_looper-Looks : Looks new_looper (record { in_loop = false; queue = []; listeners = [] })
unfolding new_looper
new_looper-Looks = record {
  same_loop = refl;
  same_listeners = refl;
  bounded = omega arith;
  stored = new_store-Implements queue_size;
}

-- The destructor of a looper that stands for a list of events takes all of them out and deletes each
-- one once, and no event is left on the heap.
pub destroy-Deletes : (l : Looper) (el : EventLooper) → Looks l el → Deletes (destroy l) el.queue
unfolding destroy
destroy-Deletes l el h =
    drain-Deletes queue_size (length l.store.queue.inner_queue) l.store el.queue h.stored
      (omega (arith, Implements-length queue_size l.store el.queue h.stored))
