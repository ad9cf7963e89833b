-- ===== src/Socket/Rounds.antt =====
-- One round of the read loop: what it takes from the buffer, and that more bytes at the end of the
-- buffer do not change what it takes.

use code_snippet.Common.{
  ℕ, zero, suc, ◌+◌, ◌-◌, ◌≤◌, ◌<◌, ◌≡◌, ◌≢◌, refl, ap, ap₂, ◌∙◌, inl, inr, List, [], ◌∷◌, ◌++◌,
  Bool, true, false, Option, none, some, arith, ◌==◌, leb, Bool-cases, length, take, drop,
  length-append, length-drop, length-take, take-append_le, drop-append_le, leb→le, le→leb,
}
use code_snippet.Common.Decimal.{atoi}
use code_snippet.Socket.Nul.{NulFree, c_str-NulFree, take-NulFree}
use code_snippet.Socket.Framing.{
  find_first_symbol, c_str, Round, wait, illegal, undefined, message, take_body, take_number,
  take_header, take_message,
}

find-lt : (s : ℕ) (cs : List ℕ) (i : ℕ) → find_first_symbol s cs ≡ some i → i < length cs
unfolding find_first_symbol
find-lt s [] i h = cc
find-lt s (c ∷ cs) zero h = omega arith
find-lt s (c ∷ cs) (suc i) h = ground (arith, find-lt s cs i)

find-append :
    (s : ℕ) (cs ds : List ℕ) (i : ℕ)
    → find_first_symbol s cs ≡ some i
    → find_first_symbol s (cs ++ ds) ≡ some i
unfolding find_first_symbol
find-append s [] ds i h = cc
find-append s (c ∷ cs) ds zero h = ground arith
find-append s (c ∷ cs) ds (suc i) h = ground (arith, find-append s cs ds i)

length-c_str : (cs : List ℕ) → length (c_str cs) ≤ length cs
unfolding c_str
length-c_str [] = omega arith
length-c_str (c ∷ cs) = ground (arith, length-c_str cs)

-- A message that a round takes.
pub record Takes (buffer : List ℕ) (index n : ℕ) (body rest : List ℕ) : Type 0 where
  pub found : find_first_symbol b':' buffer ≡ some index
  pub header : atoi (c_str (take index buffer)) ≡ some (false, n)
  pub positive : 0 < n
  pub fits : n ≤ length buffer - length (c_str (take index buffer)) - 1
  pub body_lem : body ≡ take n (drop (index + 1) buffer)
  pub rest_lem : rest ≡ drop n (drop (index + 1) buffer)

number_inv :
    (buffer : List ℕ) (index header : ℕ) (number : Option (Bool × ℕ)) (body rest : List ℕ)
    → take_number buffer index header number ≡ message body rest
    → (n : ℕ) × (number ≡ some (false, n))
      × (0 < n)
      × (n ≤ length buffer - header - 1)
      × (body ≡ take n (drop (index + 1) buffer))
      × (rest ≡ drop n (drop (index + 1) buffer))
unfolding take_number
number_inv buffer index header none body rest h = cc
number_inv buffer index header (some (true, n)) body rest h = cc
number_inv buffer index header (some (false, n)) body rest h =
    (n, refl, ground arith, ground arith, ground arith, ground arith)

header_inv :
    (buffer : List ℕ) (found : Option ℕ) (body rest : List ℕ)
    → take_header buffer found ≡ message body rest
    → (index : ℕ) × (found ≡ some index)
      × (take_number buffer index
            (length (c_str (take index buffer)))
            (atoi (c_str (take index buffer)))
          ≡ message body rest)
unfolding take_header
header_inv buffer none body rest h = cc
header_inv buffer (some index) body rest h = (index, refl, h)

pub message_inv :
    (buffer : List ℕ) (body rest : List ℕ)
    → take_message buffer ≡ message body rest
    → (index : ℕ) × (n : ℕ) × Takes buffer index n body rest
unfolding take_message
message_inv buffer body rest h =
    let (index, found, number) = header_inv buffer (find_first_symbol b':' buffer) body rest h in
    let (n, header, positive, fits, body_lem, rest_lem) =
      number_inv buffer index (length (c_str (take index buffer)))
        (atoi (c_str (take index buffer))) body rest number in
    (
      index,
      n,
      record {
        found = found;
        header = header;
        positive = positive;
        fits = fits;
        body_lem = body_lem;
        rest_lem = rest_lem;
      },
    )

-- A round that takes a message makes the buffer shorter.
pub message_shrinks :
    (buffer : List ℕ) (body rest : List ℕ)
    → take_message buffer ≡ message body rest
    → length rest < length buffer
message_shrinks buffer body rest h =
    let (index, n, t) = message_inv buffer body rest h in
    omega (
      arith,
      ap length t.rest_lem,
      length-drop n (drop (index + 1) buffer),
      length-drop (index + 1) buffer,
      find-lt b':' buffer index t.found,
    )

-- More bytes at the end of the buffer leave a decided round as it is.
abbrev pub extend : Round → List ℕ → Round
extend wait more = wait
extend illegal more = illegal
extend undefined more = undefined
extend (message body rest) more = message body (rest ++ more)

body-append :
    (buffer more : List ℕ) (index header n : ℕ)
    → index < length buffer
    → header ≡ index
    → take_body buffer index header n ≢ wait
    → take_body (buffer ++ more) index header n ≡ extend (take_body buffer index header n) more
unfolding take_body
body-append buffer more index header n lt e decided =
    elim (Bool-cases (leb n (length buffer - header - 1))) [
      | inl fits ↦
          let room : n ≤ length buffer - header - 1 = leb→le n _ fits in
          rw (fits, still room) (ap₂ message (taken room) (left room))
      | inr short ↦ absurd (decided (rw short))
    ]
  where
    still : n ≤ length buffer - header - 1 → leb n (length (buffer ++ more) - header - 1) ≡ true
    still h = le→leb n _ (omega (arith, length-append buffer more))

    shifted : drop (index + 1) (buffer ++ more) ≡ drop (index + 1) buffer ++ more
    shifted = drop-append_le (index + 1) buffer more (omega arith)

    inside : n ≤ length buffer - header - 1 → n ≤ length (drop (index + 1) buffer)
    inside h = omega (arith, length-drop (index + 1) buffer)

    taken :
        n ≤ length buffer - header - 1
        → take n (drop (index + 1) (buffer ++ more)) ≡ take n (drop (index + 1) buffer)
    taken h = ap (take n) shifted ∙ take-append_le n (drop (index + 1) buffer) more (inside h)

    left :
        n ≤ length buffer - header - 1
        → drop n (drop (index + 1) (buffer ++ more)) ≡ drop n (drop (index + 1) buffer) ++ more
    left h = ap (drop n) shifted ∙ drop-append_le n (drop (index + 1) buffer) more (inside h)

number-append :
    (buffer more : List ℕ) (index header : ℕ) (number : Option (Bool × ℕ))
    → index < length buffer
    → header ≡ index
    → take_number buffer index header number ≢ wait
    → take_number (buffer ++ more) index header number
      ≡ extend (take_number buffer index header number) more
unfolding take_number
number-append buffer more index header none lt e decided = refl
number-append buffer more index header (some (true, n)) lt e decided = refl
number-append buffer more index header (some (false, n)) lt e decided = elim (Bool-cases (n == 0)) [
  | inl zero_ ↦ rw zero_
  | inr positive ↦
      rw positive (body-append buffer more index header n lt e (λ w. decided (rw positive w)))
]

header-append :
    (buffer more : List ℕ) (found : Option ℕ)
    → find_first_symbol b':' buffer ≡ found
    → NulFree buffer
    → take_header buffer found ≢ wait
    → take_header (buffer ++ more) found ≡ extend (take_header buffer found) more
unfolding take_header
header-append buffer more none e free decided = refl
header-append buffer more (some index) e free decided =
    ap (λ (h : List ℕ). take_number (buffer ++ more) index (length (c_str h)) (atoi (c_str h)))
      (take-append_le index buffer more (omega (arith, before)))
    ∙ number-append buffer more index (length (c_str (take index buffer)))
        (atoi (c_str (take index buffer))) before whole decided
  where
    before : index < length buffer
    before = find-lt b':' buffer index e

    whole : length (c_str (take index buffer)) ≡ index
    whole =
        ap length (c_str-NulFree (take index buffer) (take-NulFree index buffer free))
        ∙ omega (arith, length-take index buffer, before)

wait_of_none : (buffer : List ℕ) → take_header buffer none ≡ wait
unfolding take_header
wait_of_none buffer = refl

find_decided :
    (buffer more : List ℕ) (found : Option ℕ)
    → find_first_symbol b':' buffer ≡ found
    → take_header buffer found ≢ wait
    → find_first_symbol b':' (buffer ++ more) ≡ found
find_decided buffer more none e decided = absurd (decided (wait_of_none buffer))
find_decided buffer more (some index) e decided = find-append b':' buffer more index e

-- A round that does not wait takes the same whatever bytes follow.
pub take_message-append :
    (buffer more : List ℕ)
    → NulFree buffer
    → take_message buffer ≢ wait
    → take_message (buffer ++ more) ≡ extend (take_message buffer) more
unfolding take_message
take_message-append buffer more free decided =
    ap (take_header (buffer ++ more)) (find_decided buffer more _ refl decided)
    ∙ header-append buffer more (find_first_symbol b':' buffer) refl free decided
