-- ===== src/Server/Flush.antt =====
-- flushMessage to a home application that takes the bytes, and what that application reads.
use code_snippet.Common.{
  ℕ, ◌<◌, ◌-◌, ◌≡◌, refl, sym, ap, ◌∙◌, List, [], ◌∷◌, ◌++◌, Option, none, some, arith, lt→ltb,
  length,
}
use code_snippet.Socket.Client.{
  WriteOutcome, disconnected, failed, blocked, written, is_connected, write_data,
}
use code_snippet.Socket.Sending.{IsSane, IsBusy, Sent, write_data-Sent, write_data-written}
use code_snippet.Socket.Nul.{NulFree}
use code_snippet.Message.{frame}
use code_snippet.Message.Frames.{frames, AllFramable}
use code_snippet.Message.Delivery.{concat, read_all, AllNonempty, read_all-frames}
use code_snippet.Server.{goes, flush_loop, flush_to, flush_message}
use code_snippet.Server.Sole.{socket, serving}
use code_snippet.Server.Rounds.{flush_serving}

-- For each message, calls of `send` that each take something, and enough of them.
abbrev pub AllBusy : List (List (Option ℕ)) → List (List ℕ) → Type 0
AllBusy sent [] = Unit {0}
AllBusy [] (m ∷ ms) = ⊥
AllBusy (r ∷ sent) (m ∷ ms) = (length m < length r) × IsBusy r (length m) × AllBusy sent ms

IsBusy-IsSane : (r : List (Option ℕ)) (left : ℕ) → IsBusy r left → IsSane r left
IsBusy-IsSane [] left h = tt
IsBusy-IsSane (none ∷ r) left h = absurd h
IsBusy-IsSane (some n ∷ r) left h = (h.0, IsBusy-IsSane r (left - n) h.2)

wire_of :
    (m wire : List ℕ) (o : WriteOutcome) → o ≡ written (length m) → Sent m 0 (o, wire) → wire ≡ m
wire_of m wire (written n) e s = s.1
wire_of m wire (blocked n) e s = ground arith
wire_of m wire failed e s = ground arith
wire_of m wire disconnected e s = absurd s

flush_loop-concat :
    (k : ℕ) (buffer : List ℕ) (sent : List (List (Option ℕ))) (ms : List (List ℕ))
    → 0 < k
    → AllBusy sent ms
    → flush_loop (socket k buffer) sent ms ≡ some (concat ms)
unfolding flush_loop is_connected
flush_loop-concat k buffer sent [] pk busy = refl
flush_loop-concat k buffer [] (m ∷ ms) pk busy = absurd busy
flush_loop-concat k buffer (r ∷ sent) (m ∷ ms) pk busy =
    rw (lt→ltb 0 k pk, out, flush_loop-concat k buffer sent ms pk busy.2)
      (ap (λ (wire : List ℕ). some (wire ++ concat ms)) whole)
  where
    out : (write_data (socket k buffer) r m).0 ≡ written (length m)
    out = write_data-written (socket k buffer) r m pk busy.0 busy.1

    whole : (write_data (socket k buffer) r m).1 ≡ m
    whole =
        wire_of m (write_data (socket k buffer) r m).1 (write_data (socket k buffer) r m).0 out
          (write_data-Sent (socket k buffer) r m pk (IsBusy-IsSane r (length m) busy.1))

abbrev pub framed : List (List ℕ) → List (List ℕ)
framed [] = []
framed (b ∷ bodies) = frame b ∷ framed bodies

concat-framed : (bodies : List (List ℕ)) → concat (framed bodies) ≡ frames bodies
concat-framed [] = refl
concat-framed (b ∷ bodies) = ap (◌++◌ (frame b)) (concat-framed bodies)

-- A daemon with a home application whose calls of `send` always take something: flushMessage returns,
-- with an empty queue, and what it wrote are the queued messages one after the other. If the JSON texts
-- in them are non-empty, shorter than 2^31 bytes and without a NUL, then, however the network cuts
-- these bytes into non-empty pieces, ReadData at the other end, on a connected socket with an empty
-- buffer, delivers exactly the JSON texts that were queued, in their order, and keeps no rest.
pub flush_message-read_all :
    (k home_fd : ℕ) (buffer : List ℕ) (bodies zs : List (List ℕ)) (sent : List (List (Option ℕ)))
    → 0 < k
    → 0 < home_fd
    → AllBusy sent (framed bodies)
    → AllFramable bodies
    → NulFree (frames bodies)
    → AllNonempty zs
    → concat zs ≡ frames bodies
    → (flush_message (serving k buffer (framed bodies)) sent
        ≡ goes (serving k buffer []) (concat zs))
      × (read_all (socket home_fd []) zs ≡ some (socket home_fd [], bodies))
unfolding flush_to
flush_message-read_all k home_fd buffer bodies zs sent pk ph busy framable free full cut = (
  flush_serving k buffer (framed bodies) sent
      ∙ ap (flush_to (serving k buffer (framed bodies)))
          (flush_loop-concat k buffer sent (framed bodies) pk busy)
      ∙ ap (goes (serving k buffer [])) (concat-framed bodies ∙ sym cut),
  read_all-frames home_fd zs bodies ph full framable free cut,
)
