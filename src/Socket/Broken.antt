-- ===== src/Socket/Broken.antt =====
-- An illegal header (ClientSocket::ReadData). The log says that it is dropped; it stays at the
-- front of the read buffer.
use code_snippet.Common.{
  ℕ, ◌+◌, ◌<◌, ◌≡◌, refl, sym, ap, subst, ◌∙◌, List, [], ◌∷◌, ◌++◌, arith, lt→ltb, length,
  append_assoc, append-nil,
}
use code_snippet.Socket.Framing.{
  Round, wait, illegal, undefined, message, take_message, broken, Parsed, stop, parse,
}
use code_snippet.Socket.Nul.{NulFree}
use code_snippet.Socket.Rounds.{take_message-append, extend}
use code_snippet.Socket.Stream.{parse_step, after_round, rounds_induction, parse-NulFree}
use code_snippet.Socket.Client.{ClientSocket, fails, read_data}

broken_step :
    (buffer : List ℕ) (r : Round)
    → take_message buffer ≡ r
    → ((body rest : List ℕ)
        → r ≡ message body rest
        → (parse rest).ending ≡ broken
        → take_message (parse rest).buffer ≡ illegal)
    → (after_round parse buffer r).ending ≡ broken
    → take_message (after_round parse buffer r).buffer ≡ illegal
broken_step buffer wait e ih h = cc
broken_step buffer illegal e ih h = e
broken_step buffer undefined e ih h = cc
broken_step buffer (message body rest) e ih h = ih body rest refl h

-- The loop returns -1 with the illegal header still in front.
pub parse-illegal :
    (buffer : List ℕ)
    → (parse buffer).ending ≡ broken
    → take_message (parse buffer).buffer ≡ illegal
parse-illegal buffer h =
    rounds_induction (λ b. (parse b).ending ≡ broken → take_message (parse b).buffer ≡ illegal)
      (λ b ih.
        subst (λ (p : Parsed). p.ending ≡ broken → take_message p.buffer ≡ illegal)
          (sym (parse_step b)) (broken_step b (take_message b) refl ih))
      (length buffer + 1) buffer (omega arith) h

still_broken :
    (buffer more : List ℕ)
    → NulFree buffer
    → take_message buffer ≡ illegal
    → parse (buffer ++ more) ≡ stop broken (buffer ++ more)
still_broken buffer more free e =
    parse_step (buffer ++ more)
    ∙ ap (after_round parse (buffer ++ more))
        (take_message-append buffer more free (λ w. cc) ∙ ap (λ r. extend r more) e)

read_broken :
    (c : ClientSocket) (z : List ℕ) (p : Parsed)
    → 0 < c.fd
    → 0 < length z
    → parse (c.read_buffer ++ z) ≡ p
    → p.ending ≡ broken
    → read_data c z ≡ fails (record c { read_buffer = p.buffer }) p.messages
unfolding read_data
read_broken c z p fd pos e b =
    rw (lt→ltb 0 c.fd fd) (rw (lt→ltb 0 (length z) pos) (rw e (rw b refl)))

-- The reads of `pieces`, one after another, from `c` on: every one of them fails, delivers nothing and
-- keeps what it received.
abbrev pub AllFail : ClientSocket → List (List ℕ) → Type 0
AllFail c [] = Unit {0}
AllFail c (z ∷ zs) =
    (read_data c z ≡ fails (record c { read_buffer = c.read_buffer ++ z }) [])
    × AllFail (record c { read_buffer = c.read_buffer ++ z }) zs

-- Pieces that are not empty.
abbrev pub NoneEmpty : List (List ℕ) → Type 0
NoneEmpty [] = Unit {0}
NoneEmpty (z ∷ zs) = (0 < length z) × NoneEmpty zs

-- `left` starts with the illegal header, and `later` has been received since.
still_failing :
    (c : ClientSocket) (left later : List ℕ) (zs : List (List ℕ))
    → 0 < c.fd
    → NulFree left
    → take_message left ≡ illegal
    → NoneEmpty zs
    → AllFail (record c { read_buffer = left ++ later }) zs
still_failing c left later [] fd free e some_bytes = tt
still_failing c left later (z ∷ zs) fd free e some_bytes = (
  read_broken (record c { read_buffer = left ++ later }) z (stop broken ((left ++ later) ++ z)) fd
      some_bytes.0
      (ap parse (append_assoc left later z)
        ∙ still_broken left (later ++ z) free e
        ∙ ap (stop broken) (sym (append_assoc left later z)))
      refl,
  subst (λ (b : List ℕ). AllFail (record c { read_buffer = b }) zs)
      (sym (append_assoc left later z))
      (still_failing c left (later ++ z) zs fd free e some_bytes.1),
)

-- Once a read has met an illegal header, it fails, and every later read on that connection fails and
-- delivers nothing, in whatever non-empty pieces the client sends whatever bytes; the buffer only
-- grows, by each piece. The socket is connected, and no byte up to the first failure is NUL.
pub read_data_broken_forever :
    (c : ClientSocket) (z : List ℕ) (later : List (List ℕ))
    → 0 < c.fd
    → 0 < length z
    → NulFree (c.read_buffer ++ z)
    → (parse (c.read_buffer ++ z)).ending ≡ broken
    → NoneEmpty later
    → let left = (parse (c.read_buffer ++ z)).buffer in
      (read_data c z
        ≡ fails (record c { read_buffer = left }) (parse (c.read_buffer ++ z)).messages)
      × AllFail (record c { read_buffer = left }) later
read_data_broken_forever c z later fd pos free b some_bytes = (
  read_broken c z (parse (c.read_buffer ++ z)) fd pos refl b,
  subst (λ (l : List ℕ). AllFail (record c { read_buffer = l }) later)
      (append-nil (parse (c.read_buffer ++ z)).buffer)
      (still_failing c (parse (c.read_buffer ++ z)).buffer [] later fd
        (parse-NulFree (c.read_buffer ++ z) free) (parse-illegal (c.read_buffer ++ z) b)
        some_bytes),
)
