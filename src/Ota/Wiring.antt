-- ===== src/Ota/Wiring.antt =====
-- Which target hears which event, once OtaDaemon has registered the listeners.
use code_snippet.Common.{ℕ, ◌<◌, ◌≡◌, ap, ◌∙◌, List, [], ◌∷◌, false, some, arith}
use code_snippet.Event.{
  Event, Listener, EventLooper, find_listener, register_listener, Delivery, deliveries, enter_loop,
  do_loop_round,
}
use code_snippet.Ota.{download_event, notification_event, register_targets}

abbrev pub fresh : List Event → EventLooper
fresh queue = record { in_loop = false; queue = queue; listeners = [] }

abbrev pub registered : ℕ → ℕ → ℕ → List Listener
registered listener daemon server =
    record { event_sender = daemon; event_type = notification_event; event_handler = server }
    ∷ record { event_sender = listener; event_type = download_event; event_handler = daemon }
    ∷ []

-- The looper in its loop, with these events.
abbrev pub ready : List Event → ℕ → ℕ → ℕ → List Event → EventLooper
ready queue listener daemon server events =
    enter_loop (record (register_targets (fresh queue) listener daemon server) { queue = events })

module _ (queue : List Event) (listener daemon server : ℕ) (pl : 0 < listener) (pd : 0 < daemon)
    (ps : 0 < server) where
  register_targets-registered :
      (register_targets (fresh queue) listener daemon server).listeners
      ≡ registered listener daemon server
  unfolding register_targets register_listener find_listener
  register_targets-registered = ground arith

  -- The listener's events go to the daemon alone.
  download_heard :
      (message : List ℕ)
      → deliveries
          (record { type = download_event; message = message; sender_id = listener })
          (registered listener daemon server)
        ≡ record { handler = daemon; type = download_event; message = message } ∷ []
  unfolding deliveries
  download_heard message = ground arith

  -- The daemon's notifications go to the server alone.
  notification_heard :
      (message : List ℕ)
      → deliveries
          (record { type = notification_event; message = message; sender_id = daemon })
          (registered listener daemon server)
        ≡ record { handler = server; type = notification_event; message = message } ∷ []
  unfolding deliveries
  notification_heard message = ground arith

  -- One round of the loop after Start: an event of the DownloadListener is handed to OtaDaemon and to
  -- nobody else, a notification of OtaDaemon to ServerDaemonImpl and to nobody else; the event is taken out
  -- of the queue. The addresses are not NULL.
  pub register_targets-deliveries :
      (message : List ℕ) (rest : List Event)
      → (do_loop_round (
            ready queue listener daemon server
              (record { type = download_event; message = message; sender_id = listener } ∷ rest))
          ≡ some (
            ready queue listener daemon server rest,
            record { handler = daemon; type = download_event; message = message } ∷ [],
          ))
        × (do_loop_round (
              ready queue listener daemon server (
                record { type = notification_event; message = message; sender_id = daemon } ∷ rest))
            ≡ some (
              ready queue listener daemon server rest,
              record { handler = server; type = notification_event; message = message } ∷ [],
            ))
  unfolding do_loop_round enter_loop
  register_targets-deliveries message rest = (
    ap (λ (ds : List Delivery). some (ready queue listener daemon server rest, ds))
        (ap (deliveries (record { type = download_event; message = message; sender_id = listener }))
            register_targets-registered
          ∙ download_heard message),
    ap (λ (ds : List Delivery). some (ready queue listener daemon server rest, ds))
        (ap
            (deliveries
              (record { type = notification_event; message = message; sender_id = daemon }))
            register_targets-registered
          ∙ notification_heard message),
  )
