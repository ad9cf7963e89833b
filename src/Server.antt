-- ===== src/Server.antt =====
-- The thread of ffos/ota/src/socket/ServerDaemon.cpp with the callbacks of
-- ffos/ota/src/ota/daemon/ServerDaemonImpl.cpp. `m_HomeConnection` points to a session of the map; the
-- model follows whether that session has been deleted. A message is the text of GetMessage.
pub mod Sole
pub mod Rounds
pub mod Runs
pub mod Flush
pub mod Stored
mod Tests
use code_snippet.Common.{
  ℕ, List, [], ◌∷◌, ◌++◌, Bool, true, false, not, ◌&&◌, ◌||◌, Option, none, some, ltb, ◌==◌,
  if◌then◌else◌, length,
}
use code_snippet.Socket.Client.{
  ClientSocket, is_connected, close, throws, fails, reads, undefined, ReadOutcome, read_data,
  WriteOutcome, disconnected, failed, blocked, written, write_data,
}
use code_snippet.Sessions.{Sessions, add_session, lookup, find_session_by_fd, clean_sessions}

pub data Home : Type 0 where
  -- NULL
  nobody : Home
  -- the session with this key
  session : ℕ → Home
  -- a session that has been deleted
  deleted : Home

pub record ServerDaemon : Type 0 where
  pub sessions : Sessions
  pub home : Home
  pub message_queue : List (List ℕ)

-- How a part of a round ends: with the state and the bytes that went to the home application, or not.
pub data Outcome : Type 0 where
  goes : ServerDaemon → List ℕ → Outcome
  -- an exception leaves `Run`, which ends the process
  terminates : Outcome
  -- a call that does not return
  blocks : Outcome
  -- a deleted session is used
  dangles : Outcome
  -- a size that does not fit into an int is handed to `atoi`
  overflows : Outcome

-- QUEUE_SIZE
abbrev pub queue_size : ℕ
queue_size = 128

-- `m_MessageQueue->Push(...)`, by the thread that alone takes messages out.
unfoldable pub push_message : ServerDaemon → List ℕ → Outcome
push_message d message =
    if length d.message_queue == queue_size
    then blocks
    else goes (record d { message_queue = d.message_queue ++ message ∷ [] }) []

-- A change of the session with a key.
unfoldable pub change_session : ℕ → (ClientSocket → ClientSocket) → Sessions → Sessions
change_session fd f [] = []
change_session fd f ((k, c) ∷ ss) =
    let rest = change_session fd f ss in if fd == k then (k, f c) ∷ ss else (k, c) ∷ rest

-- ServerDaemonImpl::onNewConnection, with the text of the new SystemMessage.
unfoldable pub on_new_connection : List ℕ → ServerDaemon → ℕ → Outcome
unfolding push_message change_session close
on_new_connection message d fd = elim d.home [
  | nobody ↦ push_message (record d { home = session fd }) message
  | session k ↦
      push_message
        (record d { home = session fd; sessions = change_session k (λ c. (close c).0) d.sessions })
        message
  | deleted ↦ dangles
]

-- The branch for a connection that `AcceptConnection` returned. The descriptor is positive. A
-- descriptor that is a key already leaves everything as it is.
unfoldable pub accept_session : List ℕ → ServerDaemon → ℕ → Outcome
unfolding on_new_connection
accept_session message d fd = elim (find_session_by_fd fd d.sessions) [
  | some c ↦ goes d []
  | none ↦
      on_new_connection message
        (record d { sessions = add_session d.sessions (record { fd = fd; read_buffer = [] }) }) fd
]

-- The result of the loop over the sessions.
pub data ReadAll : Type 0 where
  done : Sessions → ReadAll
  exception : ReadAll
  bad_number : ReadAll

abbrev pub and_session : ℕ → ClientSocket → ReadAll → ReadAll
and_session k c (done ss) = done ((k, c) ∷ ss)
and_session k c exception = exception
and_session k c bad_number = bad_number

-- One session of that loop; onReadError and onMessageReceived only write to the log.
unfoldable pub read_session : ℕ → ReadOutcome → ReadAll → ReadAll
read_session k throws rest = exception
read_session k (fails c messages) rest = and_session k c rest
read_session k (reads c messages) rest = and_session k c rest
read_session k undefined rest = bad_number

-- The loop; the argument is what `recv` delivers on the descriptors that are set.
unfoldable pub read_sessions : (ℕ → Option (List ℕ)) → Sessions → ReadAll
unfolding read_session
read_sessions ready [] = done []
read_sessions ready ((k, c) ∷ ss) =
    let rest = read_sessions ready ss in
    elim (ready k) [
      | none ↦ and_session k c rest
      | some bytes ↦ read_session k (read_data c bytes) rest
    ]

-- Only the descriptors of the sessions at the time of `select` can be set.
unfoldable pub ready_among : Sessions → (ℕ → Option (List ℕ)) → ℕ → Option (List ℕ)
ready_among ss ready k = elim (lookup k ss) [ none ↦ none | some c ↦ ready k ]

-- cleanSessions(false), which deletes the sessions that it takes out.
abbrev pub home_after : Home → Sessions → Home
home_after nobody ss = nobody
home_after (session k) ss = elim (lookup k ss) [ none ↦ deleted | some c ↦ session k ]
home_after deleted ss = deleted

unfoldable pub clean : ServerDaemon → ServerDaemon
clean d =
    let ss = (clean_sessions false d.sessions).0 in
    record d { sessions = ss; home = home_after d.home ss }

-- The loop of flushMessage over the queue, for a home connection; `sent` has the results of the calls
-- of `send` for each message. What does not go out is dropped.
unfoldable pub flush_loop : ClientSocket → List (List (Option ℕ)) → List (List ℕ) → Option (List ℕ)
flush_loop c sent [] = some []
flush_loop c sent (m ∷ ms) =
    let results : List (Option ℕ) = elim sent [ [] ↦ [] | r ∷ rs ↦ r ] in
    let later : List (List (Option ℕ)) = elim sent [ [] ↦ [] | r ∷ rs ↦ rs ] in
    let rest = flush_loop c later ms in
    let unsent = flush_loop c sent ms in
    if is_connected c
    then elim (write_data c results m).0 [
      | blocked n ↦ none
      | _ ↦ elim rest [ none ↦ none | some bytes ↦ some ((write_data c results m).1 ++ bytes) ]
    ]
    else unsent

unfoldable pub flush_to : ServerDaemon → Option (List ℕ) → Outcome
flush_to d none = blocks
flush_to d (some bytes) = goes (record d { message_queue = [] }) bytes

-- ServerDaemonImpl::flushMessage
unfoldable pub flush_message : ServerDaemon → List (List (Option ℕ)) → Outcome
unfolding flush_loop flush_to
flush_message d sent = elim d.home [
  | nobody ↦ goes d []
  | session k ↦ elim (lookup k d.sessions) [
    | none ↦ dangles
    | some c ↦ flush_to d (flush_loop c sent d.message_queue)
  ]
  | deleted ↦ elim d.message_queue [ [] ↦ goes d [] | m ∷ ms ↦ dangles ]
]

-- What a round meets.
pub record Input : Type 0 where
  -- whether `select` returned more than 0
  pub selected : Bool
  -- the descriptor of a new connection
  pub accepted : Option ℕ
  pub readable : ℕ → Option (List ℕ)
  pub sent : List (List (Option ℕ))

abbrev pub and_then : Outcome → (ServerDaemon → Outcome) → Outcome
and_then (goes d bytes) f = f d
and_then terminates f = terminates
and_then blocks f = blocks
and_then dangles f = dangles
and_then overflows f = overflows

unfoldable pub after_reading : ServerDaemon → ReadAll → Outcome
unfolding clean
after_reading d (done ss) = goes (clean (record d { sessions = ss })) []
after_reading d exception = terminates
after_reading d bad_number = overflows

-- The body of `if (select(...) > 0)`.
unfoldable pub handle_ready : List ℕ → ServerDaemon → Input → Outcome
unfolding accept_session read_sessions ready_among after_reading
handle_ready message d input =
    and_then (elim input.accepted [ none ↦ goes d [] | some fd ↦ accept_session message d fd ])
      (λ d'. after_reading d' (read_sessions (ready_among d.sessions input.readable) d'.sessions))

-- One round of `while (true)` of ServerDaemon::Run.
unfoldable pub round : List ℕ → ServerDaemon → Input → Outcome
unfolding handle_ready flush_message
round message d input =
    and_then (if input.selected then handle_ready message d input else goes d [])
      (λ d'. flush_message d' input.sent)
