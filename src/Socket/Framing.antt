-- ===== src/Socket/Framing.antt =====
-- The loop of ClientSocket::ReadData (ClientSocket.cpp) over the read buffer,
-- with the string helpers of StringUtils.cpp that it calls. A message stands in
-- the stream as its length in decimal, a colon, and its bytes.
use code_snippet.Common.{
  ℕ, zero, suc, ◌+◌, ◌-◌, List, [], ◌∷◌, Bool, true, false, Option, none, some, ◌==◌, leb,
  if◌then◌else◌, length, take, drop,
}
use mathlib.Core.Option
use code_snippet.Common.Decimal.{atoi}

-- StringUtils::FindFirstSymbol: `none` is std::string::npos.
unfoldable pub find_first_symbol : ℕ → List ℕ → Option ℕ
find_first_symbol symbol [] = none
find_first_symbol symbol (c ∷ cs) =
    if c == symbol then some 0 else Option.map suc (find_first_symbol symbol cs)

-- StringUtils::HeadSubString.
abbrev pub head_sub_string : List ℕ → ℕ → List ℕ
head_sub_string str length = take length str

-- StringUtils::ShiftStringLeft.
abbrev pub shift_string_left : List ℕ → ℕ → List ℕ
shift_string_left str length = drop length str

-- The conversion `.c_str()` ends the text at the first NUL.
unfoldable pub c_str : List ℕ → List ℕ
c_str [] = []
c_str (c ∷ cs) = if c == 0 then [] else c ∷ c_str cs

pub data Round : Type 0 where
  -- no colon, or a message that is not complete: `break`
  wait : Round
  -- `return -1`
  illegal : Round
  -- the header is a number that does not fit into an int
  undefined : Round
  -- `q.push(data)`, and what is left of the buffer
  message : List ℕ → List ℕ → Round

-- The body of a message of this length, if the buffer holds it; `header` is the size of `lenStr`.
unfoldable pub take_body : List ℕ → ℕ → ℕ → ℕ → Round
take_body buffer index header length_ =
    let body = shift_string_left buffer (index + 1) in
    if leb length_ (length buffer - header - 1)
    then message (head_sub_string body length_) (shift_string_left body length_)
    else wait

-- The tests on the length that the header gives.
unfoldable pub take_number : List ℕ → ℕ → ℕ → Option (Bool × ℕ) → Round
unfolding take_body
take_number buffer index header none = undefined
take_number buffer index header (some (true, n)) = illegal
take_number buffer index header (some (false, n)) =
    if n == 0 then illegal else take_body buffer index header n

unfoldable pub take_header : List ℕ → Option ℕ → Round
unfolding take_number c_str
take_header buffer none = wait
take_header buffer (some index) =
    let len_str = c_str (head_sub_string buffer index) in
    take_number buffer index (length len_str) (atoi len_str)

-- One round of `while (true)`.
unfoldable pub take_message : List ℕ → Round
unfolding find_first_symbol take_header
take_message buffer = take_header buffer (find_first_symbol b':' buffer)

-- How the loop ends: `break`, or the `return -1` for an illegal header.
pub data Ending : Type 0 where
  complete broken overflow out_of_fuel : Ending

pub record Parsed : Type 0 where
  pub ending : Ending
  pub buffer : List ℕ
  pub messages : List (List ℕ)

abbrev pub stop : Ending → List ℕ → Parsed
stop e buffer = record { ending = e; buffer = buffer; messages = [] }

abbrev pub prepend : List ℕ → Parsed → Parsed
prepend m p = record p { messages = m ∷ p.messages }

unfoldable pub parse_fuel : ℕ → List ℕ → Parsed
unfolding take_message
parse_fuel zero buffer = stop out_of_fuel buffer
parse_fuel (suc fuel) buffer = elim (take_message buffer) [
  | wait ↦ stop complete buffer
  | illegal ↦ stop broken buffer
  | undefined ↦ stop overflow buffer
  | message body rest ↦ prepend body (parse_fuel fuel rest)
]

-- The whole loop. A round that takes a message takes its colon away.
unfoldable pub parse : List ℕ → Parsed
unfolding parse_fuel
parse buffer = parse_fuel (length buffer + 1) buffer
