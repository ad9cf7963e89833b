-- ===== src/Socket/Client.antt =====
-- ClientSocket.cpp: the state of a connection and its operations. A file descriptor that is not
-- positive is 0; the system calls' results are arguments.
use code_snippet.Common.{
  ℕ, ◌+◌, List, [], ◌∷◌, ◌++◌, Bool, Option, none, some, ltb, if◌then◌else◌, length, take, drop,
}
use code_snippet.Socket.Framing.{Parsed, parse, complete, broken, overflow, out_of_fuel}

pub record ClientSocket : Type 0 where
  pub fd : ℕ
  pub read_buffer : List ℕ

unfoldable pub is_connected : ClientSocket → Bool
is_connected c = ltb 0 c.fd

-- The state, and the descriptor that is handed to `close`.
unfoldable pub close : ClientSocket → ClientSocket × Option ℕ
close c = if ltb 0 c.fd then (record c { fd = 0 }, some c.fd) else (c, none)

pub data ReadOutcome : Type 0 where
  -- the exception for a socket that is not connected
  throws : ReadOutcome
  -- `return -1`; the queue may hold messages all the same
  fails : ClientSocket → List (List ℕ) → ReadOutcome
  -- `return 0`
  reads : ClientSocket → List (List ℕ) → ReadOutcome
  -- what C leaves undefined
  undefined : ReadOutcome

unfoldable pub read_outcome : ClientSocket → Parsed → ReadOutcome
read_outcome c p = elim p.ending [
  | complete ↦ reads (record c { read_buffer = p.buffer }) p.messages
  | broken ↦ fails (record c { read_buffer = p.buffer }) p.messages
  | overflow ↦ undefined
  | out_of_fuel ↦ undefined
]

-- The second argument is what `recv` delivered, nothing for a result that is not positive. `recv` is
-- called for at most 4096 bytes; a piece may have any length here, which takes in all that it delivers.
-- The log of the array, which reads behind it for 4096 bytes without a NUL, is left out.
unfoldable pub read_data : ClientSocket → List ℕ → ReadOutcome
unfolding is_connected read_outcome
read_data c received =
    if is_connected c
    then (if ltb 0 (length received)
        then read_outcome c (parse (c.read_buffer ++ received))
        else fails c [])
    else throws

pub data WriteOutcome : Type 0 where
  -- the exception for a socket that is not connected
  disconnected : WriteOutcome
  -- the result of a failed `send`
  failed : WriteOutcome
  -- the call of `send` that has not returned yet, after this many bytes
  blocked : ℕ → WriteOutcome
  -- the number of bytes written
  written : ℕ → WriteOutcome

-- The `do … while` of WriteData: the results of the calls of `send`, and what each was handed.
unfoldable pub send_loop : List (Option ℕ) → List ℕ → ℕ → WriteOutcome × List ℕ
send_loop [] data_ sent = (blocked sent, [])
send_loop (none ∷ results) data_ sent = (failed, [])
send_loop (some n ∷ results) data_ sent =
    let (outcome, wire) = send_loop results data_ (sent + n) in
    let now = take n (drop sent data_) in
    if ltb (sent + n) (length data_) then (outcome, now ++ wire) else (written (sent + n), now)

-- The outcome, and the bytes that went out.
unfoldable pub write_data : ClientSocket → List (Option ℕ) → List ℕ → WriteOutcome × List ℕ
unfolding is_connected send_loop
write_data c results data_ =
    if is_connected c then send_loop results data_ 0 else (disconnected, [])
