-- ===== src/Event/Tests.antt =====
-- The looper on concrete inputs.
use code_snippet.Common.{
  refl, List, [], true, some, none, ◌==◌, if◌then◌else◌, ◌∷◌, false, arith, codes,
}
use code_snippet.Queue.Ownership.{new_store-Implements}
use code_snippet.Queue.Draining.{Deletes}
use code_snippet.Event.Stored.{
  Looper, new_looper, Use, sending, dispatching, run_stored, run_events, destroy,
}
use code_snippet.Event.Refinement.{Looks, Agrees, run_stored-Agrees, destroy-Deletes}
use code_snippet.Event.{Event, Listener, EventLooper, find_listener}
use code_snippet.Event.Listeners.{WellFormed}
use code_snippet.Event.Dispatch.{sends, rounds, registers, started, act_all, Inv, act_all-started}

abbrev downloads : Listener
downloads = record { event_sender = 7; event_type = codes "download"; event_handler = 9 }

abbrev el : EventLooper
el = record { in_loop = false; queue = []; listeners = downloads ∷ [] }

abbrev started_download : Event
started_download = record { type = codes "download"; message = codes "start"; sender_id = 7 }

el-WellFormed : WellFormed el.listeners
unfolding find_listener
el-WellFormed = (refl, refl, tt)

act_all_example : Inv el.listeners (
    act_all
      (started el)
      (sends 7 (codes "download") (codes "start") ∷ registers 1 (codes "x") 2 ∷ rounds ∷ []))
act_all_example =
    act_all-started el
      (sends 7 (codes "download") (codes "start") ∷ registers 1 (codes "x") 2 ∷ rounds ∷ [])
      (omega arith)

-- The looper of `el` with no event yet.
abbrev stored : Looper
stored = record new_looper { listeners = downloads ∷ [] }

stored-Looks : Looks stored el
unfolding new_looper
stored-Looks = record {
  same_loop = refl;
  same_listeners = refl;
  bounded = omega arith;
  stored = new_store-Implements 1024;
}

abbrev two_sends : List Use
two_sends =
    sending 7 (codes "download") (codes "start")
    ∷ dispatching
    ∷ sending 7 (codes "download") (codes "failed")
    ∷ []

run_stored-Agrees_example : Agrees (run_stored stored two_sends) (run_events el two_sends)
run_stored-Agrees_example = run_stored-Agrees stored el two_sends stored-Looks

-- One event in the queue, at address 1.
abbrev with_event : Looper
with_event = record {
  in_loop = true;
  store = record {
    queue = record { size = 1024; inner_queue = 1 ∷ []; locked = false };
    heap = λ p. if p == 1 then some started_download else none;
    next = 2;
  };
  listeners = downloads ∷ [];
}

abbrev waiting : EventLooper
waiting = record { in_loop = true; queue = started_download ∷ []; listeners = downloads ∷ [] }

with_event-Looks : Looks with_event waiting
with_event-Looks = record {
  same_loop = refl;
  same_listeners = refl;
  bounded = omega arith;
  stored = record {
    free = refl;
    sized = refl;
    rising = (omega arith, omega arith);
    pointed = refl;
    owned = λ p. ground arith;
  };
}

destroy-Deletes_example : Deletes (destroy with_event) (started_download ∷ [])
destroy-Deletes_example = destroy-Deletes with_event waiting with_event-Looks
