-- ===== src/Message/Frames.antt =====
-- What Message::JoinElements writes, the loop of ClientSocket::ReadData takes apart again.
use code_snippet.Common.{
  ℕ, suc, ◌+◌, ◌-◌, ◌^◌, ◌≤◌, ◌<◌, ◌≡◌, refl, sym, ap, ◌∙◌, List, [], ◌∷◌, ◌++◌, true, false, some,
  arith, ◌==◌, le→leb, length, take, drop, length-append, append-nil, append_assoc,
  take-append_self, drop-append_self,
}
use mathlib.Core.Option
use code_snippet.Common.Decimal.{decimal, atoi, Digits, is_digit, decimal-Digits, atoi-decimal}
use code_snippet.Socket.Framing.{
  find_first_symbol, c_str, message, take_body, take_number, take_header, take_message, complete,
  Parsed, stop, prepend, parse,
}
use code_snippet.Socket.Stream.{parse_step, after_round}
use code_snippet.Message.{body, frame, join_elements}

digit_plain : (c : ℕ) → is_digit c ≡ true → ((c == b':') ≡ false) × ((c == 0) ≡ false)
digit_plain c h = ground arith

find-Digits :
    (cs rest : List ℕ) → Digits cs → find_first_symbol b':' (cs ++ b':' ∷ rest) ≡ some (length cs)
unfolding find_first_symbol
find-Digits [] rest h = refl
find-Digits (c ∷ cs) rest h =
    rw (digit_plain c h.0).0 (ap (Option.map suc) (find-Digits cs rest h.1))

c_str-Digits : (cs : List ℕ) → Digits cs → c_str cs ≡ cs
unfolding c_str
c_str-Digits [] h = refl
c_str-Digits (c ∷ cs) h = rw (digit_plain c h.0).1 (ap (◌∷◌ c) (c_str-Digits cs h.1))

abbrev pub Framable : List ℕ → Type 0
Framable msg = (0 < length msg) × (length msg < 2 ^ 31)

header_of :
    (head buffer : List ℕ)
    → take (length head) buffer ≡ head
    → Digits head
    → take_header buffer (some (length head))
      ≡ take_number buffer (length head) (length head) (atoi head)
unfolding take_header
header_of head buffer e h = rw (e, c_str-Digits head h)

number_of :
    (buffer : List ℕ) (index header n : ℕ) (rest : List ℕ) (msg : List ℕ)
    → 0 < n
    → n ≤ length buffer - header - 1
    → drop (index + 1) buffer ≡ msg ++ rest
    → n ≡ length msg
    → take_number buffer index header (some (false, n)) ≡ message msg rest
unfolding take_number take_body
number_of buffer index header n rest msg pos fits shifted e = rw (positive n pos) (
    rw (le→leb n _ fits) (λ k.
      message ((ap (take n) shifted ∙ take-append_self msg rest n e) k)
        ((ap (drop n) shifted ∙ drop-append_self msg rest n e) k)))
  where
    positive : (n : ℕ) → 0 < n → (n == 0) ≡ false
    positive n h = ground arith

drop_past :
    (head : List ℕ) (c : ℕ) (more : List ℕ) → drop (length head + 1) (head ++ c ∷ more) ≡ more
drop_past [] c more = refl
drop_past (x ∷ head) c more =
    let e : suc (length head) + 1 ≡ suc (length head + 1) = omega arith in
    rw e (drop_past head c more)

framed :
    (head msg rest : List ℕ) (n : ℕ)
    → Digits head
    → atoi head ≡ some (false, n)
    → 0 < n
    → n ≡ length msg
    → take_message (head ++ b':' ∷ (msg ++ rest)) ≡ message msg rest
unfolding take_message
framed head msg rest n plain number pos e =
    ap (take_header (head ++ b':' ∷ (msg ++ rest))) (find-Digits head (msg ++ rest) plain)
    ∙ header_of head (head ++ b':' ∷ (msg ++ rest))
        (take-append_self head (b':' ∷ (msg ++ rest)) (length head) refl) plain
    ∙ ap (take_number (head ++ b':' ∷ (msg ++ rest)) (length head) (length head)) number
    ∙ number_of (head ++ b':' ∷ (msg ++ rest)) (length head) (length head) n rest msg pos
        (omega (arith, length-append head (b':' ∷ (msg ++ rest)), length-append msg rest))
        (drop_past head b':' (msg ++ rest)) e

-- One round takes exactly the framed text, whatever bytes it has and whatever follows.
pub take_message-frame :
    (msg rest : List ℕ) → Framable msg → take_message (frame msg ++ rest) ≡ message msg rest
unfolding frame
take_message-frame msg rest h =
    ap take_message (append_assoc (decimal (length msg)) (b':' ∷ msg) rest)
    ∙ framed (decimal (length msg)) msg rest (length msg) (decimal-Digits (length msg))
        (atoi-decimal (length msg) h.1) h.0 refl

abbrev pub frames : List (List ℕ) → List ℕ
frames [] = []
frames (m ∷ ms) = frame m ++ frames ms

abbrev pub AllFramable : List (List ℕ) → Type 0
AllFramable [] = Unit {0}
AllFramable (m ∷ ms) = Framable m × AllFramable ms

abbrev pub finished : List (List ℕ) → Parsed
finished ms = record { ending = complete; buffer = []; messages = ms }

parse_nothing : parse [] ≡ stop complete []
unfolding parse
parse_nothing = refl

-- A stream of frames is parsed into the texts that were framed, in their order, and nothing of it
-- is left.
pub parse-frames : (ms : List (List ℕ)) → AllFramable ms → parse (frames ms) ≡ finished ms
parse-frames [] h = parse_nothing
parse-frames (m ∷ ms) h =
    parse_step (frame m ++ frames ms)
    ∙ ap (after_round parse (frame m ++ frames ms)) (take_message-frame m (frames ms) h.0)
    ∙ ap (prepend m) (parse-frames ms h.1)

length-body : (type data_ : List ℕ) → 0 < length (body type data_)
unfolding body
length-body type data_ = omega arith

-- What JoinElements stores in `m_Message` is one frame, which the reader turns back into the JSON
-- object, for every type and data that fit into an int.
pub join_elements-parse :
    (type data_ : List ℕ)
    → length (body type data_) < 2 ^ 31
    → parse (join_elements type data_).message ≡ finished (body type data_ ∷ [])
unfolding join_elements
join_elements-parse type data_ h =
    ap parse (sym (append-nil (frame (body type data_))))
    ∙ parse-frames (body type data_ ∷ []) ((length-body type data_, h), tt)
