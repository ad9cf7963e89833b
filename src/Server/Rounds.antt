-- ===== src/Server/Rounds.antt =====
-- Whole rounds of the daemon, and any number of them.
use code_snippet.Common.{
  ℕ, ◌<◌, ◌≡◌, ◌≢◌, refl, sym, subst, ◌∙◌, ◌⊎◌, inl, inr, List, [], ◌∷◌, ◌++◌, Option, none, some,
  arith, ◌==◌, ==_iff, Bool-cases, Option-cases, length,
}
use code_snippet.Socket.Client.{ClientSocket}
use code_snippet.Sessions.{lookup, clean_sessions}
use code_snippet.Server.{
  ServerDaemon, Outcome, goes, terminates, blocks, dangles, overflows, queue_size, push_message,
  accept_session, read_sessions, ready_among, clean, flush_loop, flush_to, flush_message, Input,
  and_then, after_reading, handle_ready, round,
}
use code_snippet.Server.Sole.{
  socket, idle, serving, IsSole, is_idle, is_serving, IsSafe, reading-IsSafe, reading_quiet,
  reading_closed, replaced, accept_serving, accept_same, accept_idle,
}

-- The descriptor of a new connection is positive.
abbrev pub IsValid : Input → Type 0
IsValid input = (fd : ℕ) → input.accepted ≡ some fd → 0 < fd

pub ready_new :
    (n k : ℕ) (c : ClientSocket) (ready : ℕ → Option (List ℕ))
    → n ≢ k
    → ready_among ((k, c) ∷ []) ready n ≡ none
unfolding ready_among lookup
ready_new n k c ready other = ground arith

pub ready_old :
    (k : ℕ) (c : ClientSocket) (ready : ℕ → Option (List ℕ))
    → ready_among ((k, c) ∷ []) ready k ≡ ready k
unfolding ready_among lookup
ready_old k c ready = ground arith

-- After the branch for the new connection.
after_accept : ServerDaemon → Input → Outcome → Outcome
after_accept d input o =
    and_then o
      (λ d'. after_reading d' (read_sessions (ready_among d.sessions input.readable) d'.sessions))

pushed-IsSafe :
    (d d' : ServerDaemon) (input : Input) (message : List ℕ)
    → IsSafe (
        after_accept d input
          (goes (record d' { message_queue = d'.message_queue ++ message ∷ [] }) []))
    → IsSafe (after_accept d input (push_message d' message))
unfolding push_message after_accept
pushed-IsSafe d d' input message h = elim (Bool-cases (length d'.message_queue == queue_size)) [
  | inl full ↦ rw full tt
  | inr room ↦ rw room h
]

idle_accepts :
    (n : ℕ) (queue : List (List ℕ)) (message : List ℕ) (input : Input)
    → 0 < n
    → IsSafe (after_accept (idle queue) input (accept_session message (idle queue) n))
unfolding after_accept
idle_accepts n queue message input positive = rw (accept_idle message n queue) (
    pushed-IsSafe (idle queue) (serving n [] queue) input message (
      unfold after_accept in
      (reading-IsSafe n [] (queue ++ message ∷ []) (ready_among [] input.readable) positive)))

serving_accepts_other :
    (n k : ℕ) (buffer : List ℕ) (queue : List (List ℕ)) (message : List ℕ) (input : Input)
    → 0 < n
    → 0 < k
    → n ≢ k
    → IsSafe (
        after_accept
          (serving k buffer queue)
          input
          (accept_session message (serving k buffer queue) n))
unfolding after_accept
serving_accepts_other n k buffer queue message input pn pk other =
    rw (accept_serving message n k buffer queue pn pk other) (
      pushed-IsSafe (serving k buffer queue) (replaced n k buffer queue) input message
        (unfold after_accept in (goes_on (Option-cases (input.readable k)))))
  where
    ready : ℕ → Option (List ℕ)
    ready = ready_among ((k, socket k buffer) ∷ []) input.readable

    queue' : List (List ℕ)
    queue' = queue ++ message ∷ []

    goes_on :
        (input.readable k ≡ none) ⊎ ((bytes : List ℕ) × (input.readable k ≡ some bytes))
        → IsSafe (
            after_reading
              (replaced n k buffer queue')
              (read_sessions ready (replaced n k buffer queue').sessions))
    goes_on (inl quiet) =
        rw
          (reading_quiet n k buffer queue' ready pn other
            (ready_new n k (socket k buffer) input.readable other)
            (ready_old k (socket k buffer) input.readable ∙ quiet))
          (is_serving n [] queue' pn refl)
    goes_on (inr (bytes, got)) =
        rw
          (reading_closed n k buffer queue' ready bytes
            (ready_new n k (socket k buffer) input.readable other)
            (ready_old k (socket k buffer) input.readable ∙ got))
          tt

serving_accepts :
    (n k : ℕ) (buffer : List ℕ) (queue : List (List ℕ)) (message : List ℕ) (input : Input)
    → 0 < n
    → 0 < k
    → IsSafe (
        after_accept
          (serving k buffer queue)
          input
          (accept_session message (serving k buffer queue) n))
serving_accepts n k buffer queue message input pn pk = elim (Bool-cases (n == k)) [
  | inr other ↦
      serving_accepts_other n k buffer queue message input pn pk (λ e. cc (other, (==_iff n k).1 e))
  | inl equal ↦
      subst
        (λ (i : ℕ). IsSafe (
          after_accept (serving k buffer queue) input
            (accept_session message (serving k buffer queue) i)))
        (sym ((==_iff n k).0 equal)) kept
]
  where
    kept : IsSafe (
        after_accept
          (serving k buffer queue)
          input
          (accept_session message (serving k buffer queue) k))
    kept = rw (accept_same message k buffer queue pk) (
        unfold after_accept in
        (reading-IsSafe k buffer queue (ready_among ((k, socket k buffer) ∷ []) input.readable) pk))

-- The branch for the new connection, and without one.
by_accepted :
    (message : List ℕ) (d : ServerDaemon) (input : Input) (accepted : Option ℕ)
    → ((fd : ℕ) → accepted ≡ some fd → 0 < fd)
    → IsSole d
    → IsSafe (
        after_accept d input (elim accepted as (λ x. Outcome) [
          | none ↦ goes d []
          | some fd ↦ accept_session message d fd
        ]))
unfolding clean_sessions
by_accepted message d input none valid (is_idle queue e) =
    subst (λ (d : ServerDaemon). IsSafe (after_accept d input (goes d []))) (sym e)
      (unfold after_accept after_reading read_sessions clean in (is_idle queue refl))
by_accepted message d input none valid (is_serving k buffer queue pk e) =
    subst (λ (d : ServerDaemon). IsSafe (after_accept d input (goes d []))) (sym e)
      (unfold after_accept in
        (reading-IsSafe k buffer queue (ready_among ((k, socket k buffer) ∷ []) input.readable) pk))
by_accepted message d input (some n) valid (is_idle queue e) =
    subst (λ (d : ServerDaemon). IsSafe (after_accept d input (accept_session message d n))) (sym e)
      (idle_accepts n queue message input (valid n refl))
by_accepted message d input (some n) valid (is_serving k buffer queue pk e) =
    subst (λ (d : ServerDaemon). IsSafe (after_accept d input (accept_session message d n))) (sym e)
      (serving_accepts n k buffer queue message input (valid n refl) pk)

handle_ready-IsSafe :
    (message : List ℕ) (d : ServerDaemon) (input : Input)
    → IsValid input
    → IsSole d
    → IsSafe (handle_ready message d input)
unfolding handle_ready after_accept
handle_ready-IsSafe message d input valid sole =
    by_accepted message d input input.accepted valid sole

flush_to-IsSafe :
    (k : ℕ) (buffer : List ℕ) (queue : List (List ℕ)) (o : Option (List ℕ))
    → 0 < k
    → IsSafe (flush_to (serving k buffer queue) o)
unfolding flush_to
flush_to-IsSafe k buffer queue none pk = tt
flush_to-IsSafe k buffer queue (some bytes) pk = is_serving k buffer [] pk refl

pub flush_serving :
    (k : ℕ) (buffer : List ℕ) (queue : List (List ℕ)) (sent : List (List (Option ℕ)))
    → flush_message (serving k buffer queue) sent
      ≡ flush_to (serving k buffer queue) (flush_loop (socket k buffer) sent queue)
unfolding flush_message lookup
flush_serving k buffer queue sent = ground arith

flush-IsSafe :
    (d : ServerDaemon) (sent : List (List (Option ℕ))) → IsSole d → IsSafe (flush_message d sent)
flush-IsSafe d sent (is_idle queue e) =
    subst (λ (d : ServerDaemon). IsSafe (flush_message d sent)) (sym e)
      (unfold flush_message in (is_idle queue refl))
flush-IsSafe d sent (is_serving k buffer queue pk e) =
    subst (λ (d : ServerDaemon). IsSafe (flush_message d sent)) (sym e)
      (rw (flush_serving k buffer queue sent)
        (flush_to-IsSafe k buffer queue (flush_loop (socket k buffer) sent queue) pk))

then_flush :
    (o : Outcome) (sent : List (List (Option ℕ)))
    → IsSafe o
    → IsSafe (and_then o (λ d. flush_message d sent))
then_flush (goes d bytes) sent h = flush-IsSafe d sent h
then_flush terminates sent h = tt
then_flush blocks sent h = tt
then_flush dangles sent h = h
then_flush overflows sent h = tt

pub round-IsSafe :
    (message : List ℕ) (d : ServerDaemon) (input : Input)
    → IsValid input
    → IsSole d
    → IsSafe (round message d input)
unfolding round
round-IsSafe message d input valid sole = elim (Bool-cases input.selected) [
  | inl set ↦ rw set (
      then_flush (handle_ready message d input) input.sent
        (handle_ready-IsSafe message d input valid sole))
  | inr unset ↦ rw unset (flush-IsSafe d input.sent sole)
]
