-- ===== src/Server/Runs.antt =====
-- Any number of rounds, with messages queued by another thread in between; and how a round fails.
use code_snippet.Common.{
  ℕ, ◌<◌, ◌≡◌, ◌≢◌, refl, ap, ◌∙◌, inl, inr, List, [], ◌∷◌, ◌++◌, true, false, some, arith, ◌==◌,
  ==_iff, if◌then◌else◌, Bool-cases, length,
}
use code_snippet.Server.{
  ServerDaemon, Outcome, goes, terminates, blocks, dangles, overflows, queue_size, push_message,
  ready_among, Input, and_then, handle_ready, round, flush_message,
}
use code_snippet.Server.Sole.{
  socket, idle, serving, IsSole, is_idle, is_serving, IsSafe, accept_serving, accept_idle,
  reading_closed,
}
use code_snippet.Server.Rounds.{IsValid, round-IsSafe, ready_new, ready_old}

-- What happens: a round of the daemon, or a message from the thread of the event loop.
pub data Action : Type 0 where
  rounds : Input → Action
  queues : List ℕ → Action

abbrev pub AllValid : List Action → Type 0
AllValid [] = Unit {0}
AllValid (rounds input ∷ actions) = IsValid input × AllValid actions
AllValid (queues m ∷ actions) = AllValid actions

-- The other thread waits while the queue is full.
abbrev pub queued : ServerDaemon → List ℕ → ServerDaemon
queued d m =
    if length d.message_queue == queue_size
    then d
    else record d { message_queue = d.message_queue ++ m ∷ [] }

-- The actions until a round does not go on; `message` is the text of a SystemMessage.
abbrev pub run_actions : List ℕ → List Action → Outcome → Outcome
run_actions message [] o = o
run_actions message (rounds input ∷ actions) o =
    run_actions message actions (and_then o (λ d. round message d input))
run_actions message (queues m ∷ actions) o =
    run_actions message actions (and_then o (λ d. goes (queued d m) []))

queued-IsSole : (d : ServerDaemon) (m : List ℕ) → IsSole d → IsSole (queued d m)
queued-IsSole d m sole = elim (Bool-cases (length d.message_queue == queue_size)) [
  | inl full ↦ rw full sole
  | inr room ↦ rw room (longer sole)
]
  where
    longer : IsSole d → IsSole (record d { message_queue = d.message_queue ++ m ∷ [] })
    longer (is_idle queue e) =
        is_idle (queue ++ m ∷ [])
          (ap (λ (d : ServerDaemon). record d { message_queue = d.message_queue ++ m ∷ [] }) e)
    longer (is_serving k buffer queue pk e) =
        is_serving k buffer (queue ++ m ∷ []) pk
          (ap (λ (d : ServerDaemon). record d { message_queue = d.message_queue ++ m ∷ [] }) e)

then-IsSafe :
    (f : ServerDaemon → Outcome)
    → ((d : ServerDaemon) → IsSole d → IsSafe (f d))
    → (o : Outcome) → IsSafe o
    → IsSafe (and_then o f)
then-IsSafe f each (goes d bytes) h = each d h
then-IsSafe f each terminates h = tt
then-IsSafe f each blocks h = tt
then-IsSafe f each dangles h = h
then-IsSafe f each overflows h = tt

run_from-IsSafe :
    (message : List ℕ) (actions : List Action) (o : Outcome)
    → AllValid actions
    → IsSafe o
    → IsSafe (run_actions message actions o)
run_from-IsSafe message [] o valid h = h
run_from-IsSafe message (rounds input ∷ actions) o valid h =
    run_from-IsSafe message actions (and_then o (λ d. round message d input)) valid.1 (
      then-IsSafe (λ d. round message d input) (λ d sole. round-IsSafe message d input valid.0 sole)
        o h)
run_from-IsSafe message (queues m ∷ actions) o valid h =
    run_from-IsSafe message actions (and_then o (λ d. goes (queued d m) [])) valid
      (then-IsSafe (λ d. goes (queued d m) []) (λ d sole. queued-IsSole d m sole) o h)

-- Whatever connects, arrives and is queued, from the start of the daemon on, with positive descriptors for
-- the connections: m_HomeConnection is never used after its session was deleted; and after every round
-- that goes on there is no session and no home connection, or exactly one session, which is open, is
-- found under its own descriptor and is the home connection.
pub run_actions-IsSafe :
    (message : List ℕ) (actions : List Action)
    → AllValid actions
    → IsSafe (run_actions message actions (goes (idle []) []))
run_actions-IsSafe message actions valid =
    run_from-IsSafe message actions (goes (idle []) []) valid (is_idle [] refl)

-- A second application that connects while the first one has data waiting ends the process: the first
-- session is closed, and then read in the same round, which throws out of Run. The queue has room for
-- the SystemMessage.
pub round-terminates :
    (message bytes : List ℕ) (n k : ℕ) (buffer : List ℕ) (queue : List (List ℕ)) (input : Input)
    → 0 < n
    → 0 < k
    → n ≢ k
    → length queue ≢ queue_size
    → input.selected ≡ true
    → input.accepted ≡ some n
    → input.readable k ≡ some bytes
    → round message (serving k buffer queue) input ≡ terminates
unfolding round handle_ready push_message
round-terminates message bytes n k buffer queue input pn pk other room set new got =
    rw (set, new, accept_serving message n k buffer queue pn pk other, not_full)
      (ap (λ o. and_then o (λ d. flush_message d input.sent))
        (reading_closed n k buffer (queue ++ message ∷ [])
          (ready_among ((k, socket k buffer) ∷ []) input.readable) bytes
          (ready_new n k (socket k buffer) input.readable other)
          (ready_old k (socket k buffer) input.readable ∙ got)))
  where
    not_full : (length queue == queue_size) ≡ false
    not_full = ground arith

-- A first connection after 128 messages were queued blocks the daemon for ever: the thread that waits
-- for room in the queue is the one that takes messages out.
pub round-blocks :
    (message : List ℕ) (n : ℕ) (queue : List (List ℕ)) (input : Input)
    → length queue ≡ queue_size
    → input.selected ≡ true
    → input.accepted ≡ some n
    → round message (idle queue) input ≡ blocks
unfolding round handle_ready push_message
round-blocks message n queue input full set new =
    rw (set, new, accept_idle message n queue, (==_iff (length queue) queue_size).1 full) refl
