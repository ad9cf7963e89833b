-- ===== src/Server/Sole.antt =====
-- The daemon serves one session at a time, and never uses a deleted one.
use code_snippet.Common.{
  ℕ, ◌<◌, ◌≡◌, ◌≢◌, refl, ap, inl, inr, List, [], ◌∷◌, ◌++◌, true, Option, none, some, arith, ltb,
  ◌==◌, ==_iff, if◌then◌else◌, Bool-cases, Option-cases, lt→ltb, length,
}
use code_snippet.Socket.Client.{
  ClientSocket, is_connected, close, fails, reads, undefined, ReadOutcome, read_outcome, read_data,
}
use code_snippet.Socket.Framing.{Parsed, Ending, complete, broken, overflow, out_of_fuel, parse}
use code_snippet.Sessions.{
  Sessions, insert, add_session, lookup, find_session_by_fd, clean_sessions,
}
use code_snippet.Server.{
  nobody, session, ServerDaemon, Outcome, goes, terminates, blocks, dangles, overflows,
  push_message, change_session, accept_session, and_session, done, read_session, read_sessions,
  clean, after_reading,
}

abbrev pub socket : ℕ → List ℕ → ClientSocket
socket fd buffer = record { fd = fd; read_buffer = buffer }

abbrev pub idle : List (List ℕ) → ServerDaemon
idle queue = record { sessions = []; home = nobody; message_queue = queue }

abbrev pub serving : ℕ → List ℕ → List (List ℕ) → ServerDaemon
serving fd buffer queue = record {
  sessions = (fd, socket fd buffer) ∷ [];
  home = session fd;
  message_queue = queue;
}

-- No session and no home connection, or one session, which is open, has its descriptor as its key and
-- is the home connection.
pub data IsSole (d : ServerDaemon) : Type 0 where
  is_idle : (queue : List (List ℕ)) → d ≡ idle queue → IsSole d
  is_serving :
      (fd : ℕ) (buffer : List ℕ) (queue : List (List ℕ))
      → 0 < fd
      → d ≡ serving fd buffer queue
      → IsSole d

abbrev pub IsSafe : Outcome → Type 0
IsSafe (goes d bytes) = IsSole d
IsSafe terminates = Unit {0}
IsSafe blocks = Unit {0}
IsSafe dangles = ⊥
IsSafe overflows = Unit {0}

pub same : (n : ℕ) → (n == n) ≡ true
same n = (==_iff n n).1 refl

-- A read of an open socket, and what it leaves.
pub data ReadKept (fd : ℕ) (r : ReadOutcome) : Type 0 where
  kept_failing :
      (buffer : List ℕ) (ms : List (List ℕ)) → r ≡ fails (socket fd buffer) ms → ReadKept fd r
  kept_reading :
      (buffer : List ℕ) (ms : List (List ℕ)) → r ≡ reads (socket fd buffer) ms → ReadKept fd r
  not_kept : r ≡ undefined → ReadKept fd r

read_outcome-ReadKept :
    (fd : ℕ) (buffer : List ℕ) (p : Parsed) → ReadKept fd (read_outcome (socket fd buffer) p)
unfolding read_outcome
read_outcome-ReadKept fd buffer p = by_ending p.ending
  where
    by_ending :
        (e : Ending)
        → ReadKept fd (elim e as (λ x. ReadOutcome) [
          | complete ↦ reads (socket fd p.buffer) p.messages
          | broken ↦ fails (socket fd p.buffer) p.messages
          | overflow ↦ undefined
          | out_of_fuel ↦ undefined
        ])
    by_ending complete = kept_reading p.buffer p.messages refl
    by_ending broken = kept_failing p.buffer p.messages refl
    by_ending overflow = not_kept refl
    by_ending out_of_fuel = not_kept refl

read_data-ReadKept :
    (fd : ℕ) (buffer bytes : List ℕ) → 0 < fd → ReadKept fd (read_data (socket fd buffer) bytes)
unfolding read_data is_connected
read_data-ReadKept fd buffer bytes positive =
    rw (lt→ltb 0 fd positive) (elim (Bool-cases (ltb 0 (length bytes))) [
      | inl some_ ↦ rw some_ (read_outcome-ReadKept fd buffer (parse (buffer ++ bytes)))
      | inr none_ ↦ rw none_ (kept_failing buffer [] refl)
    ])

-- An open socket survives the cleaning.
pub clean-serving :
    (fd : ℕ) (buffer : List ℕ) (queue : List (List ℕ))
    → 0 < fd
    → clean (serving fd buffer queue) ≡ serving fd buffer queue
unfolding clean clean_sessions lookup is_connected
clean-serving fd buffer queue positive = ground arith

-- The loop over one open session.
pub reading-IsSafe :
    (fd : ℕ) (buffer : List ℕ) (queue : List (List ℕ)) (ready : ℕ → Option (List ℕ))
    → 0 < fd
    → IsSafe (
        after_reading (serving fd buffer queue) (read_sessions ready ((fd, socket fd buffer) ∷ [])))
unfolding after_reading read_sessions
reading-IsSafe fd buffer queue ready positive = elim (Option-cases (ready fd)) [
  | inl quiet ↦
      rw (quiet, read_sessions)
        (is_serving fd buffer queue positive (clean-serving fd buffer queue positive))
  | inr (bytes, got) ↦
      rw (got, read_sessions)
        (elim (read_data-ReadKept fd buffer bytes positive) [
          | kept_failing buffer' ms e ↦
              rw e (is_serving fd buffer' queue positive (clean-serving fd buffer' queue positive))
          | kept_reading buffer' ms e ↦
              rw e (is_serving fd buffer' queue positive (clean-serving fd buffer' queue positive))
          | not_kept e ↦ rw e tt
        ])
]

-- Two sessions: a new one, which is the home connection, and the one that it closed.
abbrev pub replaced : ℕ → ℕ → List ℕ → List (List ℕ) → ServerDaemon
replaced n k buffer queue = record {
  sessions =
      if ltb n k
      then (n, socket n []) ∷ (k, socket 0 buffer) ∷ []
      else (k, socket 0 buffer) ∷ (n, socket n []) ∷ [];
  home = session n;
  message_queue = queue;
}

clean-replaced :
    (n k : ℕ) (buffer : List ℕ) (queue : List (List ℕ))
    → 0 < n
    → n ≢ k
    → clean (replaced n k buffer queue) ≡ serving n [] queue
unfolding clean clean_sessions lookup is_connected
clean-replaced n k buffer queue positive other = elim (Bool-cases (ltb n k)) [
  | inl before ↦ rw before (ground arith)
  | inr after ↦ rw after (ground arith)
]

abbrev Unset : (ℕ → Option (List ℕ)) → Sessions → Type 0
Unset ready [] = Unit {0}
Unset ready ((k, c) ∷ ss) = (ready k ≡ none) × Unset ready ss

read_sessions-Unset :
    (ready : ℕ → Option (List ℕ)) (ss : Sessions)
    → Unset ready ss
    → read_sessions ready ss ≡ done ss
unfolding read_sessions
read_sessions-Unset ready [] h = refl
read_sessions-Unset ready ((k, c) ∷ ss) h =
    rw (h.0, read_sessions) (ap (and_session k c) (read_sessions-Unset ready ss h.1))

-- The loop over them: the new session is not set.
pub reading_quiet :
    (n k : ℕ) (buffer : List ℕ) (queue : List (List ℕ)) (ready : ℕ → Option (List ℕ))
    → 0 < n
    → n ≢ k
    → ready n ≡ none
    → ready k ≡ none
    → after_reading
        (replaced n k buffer queue)
        (read_sessions ready (replaced n k buffer queue).sessions)
      ≡ goes (serving n [] queue) []
unfolding after_reading
reading_quiet n k buffer queue ready positive other unset quiet =
    rw (read_sessions-Unset ready (replaced n k buffer queue).sessions both)
      (ap (λ d. goes d []) (clean-replaced n k buffer queue positive other))
  where
    both : Unset ready (replaced n k buffer queue).sessions
    both = elim (Bool-cases (ltb n k)) [
      | inl before ↦ rw before (unset, (quiet, tt))
      | inr after ↦ rw after (quiet, (unset, tt))
    ]

-- The closed one throws, if it is set.
pub reading_closed :
    (n k : ℕ) (buffer : List ℕ) (queue : List (List ℕ)) (ready : ℕ → Option (List ℕ))
    (bytes : List ℕ)
    → ready n ≡ none
    → ready k ≡ some bytes
    → after_reading
        (replaced n k buffer queue)
        (read_sessions ready (replaced n k buffer queue).sessions)
      ≡ terminates
unfolding after_reading read_sessions read_session read_data is_connected
reading_closed n k buffer queue ready bytes unset got = elim (Bool-cases (ltb n k)) [
  | inl before ↦ rw before (rw (unset, got, read_sessions) refl)
  | inr after ↦ rw after (rw (got, read_sessions) refl)
]

pub accept_serving :
    (message : List ℕ) (n k : ℕ) (buffer : List ℕ) (queue : List (List ℕ))
    → 0 < n
    → 0 < k
    → n ≢ k
    → accept_session message (serving k buffer queue) n
      ≡ push_message (replaced n k buffer queue) message
unfolding accept_session find_session_by_fd add_session insert lookup change_session close
    push_message
accept_serving message n k buffer queue pn pk other = elim (Bool-cases (ltb n k)) [
  | inl before ↦ rw before (ground arith)
  | inr after ↦ rw after (ground arith)
]

pub accept_same :
    (message : List ℕ) (k : ℕ) (buffer : List ℕ) (queue : List (List ℕ))
    → 0 < k
    → accept_session message (serving k buffer queue) k ≡ goes (serving k buffer queue) []
unfolding accept_session find_session_by_fd lookup
accept_same message k buffer queue pk = ground arith

pub accept_idle :
    (message : List ℕ) (n : ℕ) (queue : List (List ℕ))
    → accept_session message (idle queue) n ≡ push_message (serving n [] queue) message
unfolding accept_session find_session_by_fd lookup add_session insert push_message
accept_idle message n queue = ground arith
