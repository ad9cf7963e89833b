-- ===== src/Utf8.antt =====
-- ffos/ota/src/utils/StringUtils.cpp: `IsUTF8` and `IsTextUTF8`, the two tests whether bytes are
-- UTF-8, and `GetFileNameFromUrl`, `StartWith` and `ShiftStringRight`.
pub mod Encoding
pub mod TextTest
pub mod Names
mod Tests
use Prim.Native.Nat.{bit_and}
use code_snippet.Common.{
  ℕ, zero, suc, ◌+◌, ◌-◌, List, [], ◌∷◌, ◌++◌, Bool, true, false, not, ◌&&◌, ◌||◌, Option, none,
  some, ltb, leb, ◌==◌, if◌then◌else◌, length, take, drop, text_eq,
}

-- ShiftString, `str.erase(start, length)`; `none` is the exception for a start behind the end. A
-- negative start is a large one.
unfoldable pub shift_string : List ℕ → Option ℕ → ℕ → Option (List ℕ)
shift_string str none count = none
shift_string str (some start) count =
    if leb start (length str) then some (take start str ++ drop (start + count) str) else none

-- ShiftStringRight
unfoldable pub shift_string_right : List ℕ → ℕ → Option (List ℕ)
unfolding shift_string
shift_string_right str count =
    let start : Option ℕ = if leb count (length str) then some (length str - count) else none in
    shift_string str start count

unfoldable pub is_continuation : ℕ → Bool
is_continuation b = bit_and b 0xC0 == 0x80

-- `start += 2`, or the `break` where the buffer ends before that.
unfoldable pub two_bytes : (List ℕ → Option Bool) → List ℕ → Option Bool
two_bytes next [] = some true
two_bytes next (b ∷ rest) = if is_continuation b then next rest else some false

-- `start += 3` likewise.
unfoldable pub three_bytes : (List ℕ → Option Bool) → List ℕ → Option Bool
three_bytes next (b ∷ c ∷ rest) =
    if is_continuation b && is_continuation c then next rest else some false
three_bytes next _ = some true

-- `while (start < end)`
unfoldable pub utf8_loop : ℕ → List ℕ → Option Bool
unfolding two_bytes three_bytes
utf8_loop zero bytes = none
utf8_loop (suc fuel) [] = some true
utf8_loop (suc fuel) (a ∷ rest) =
    if ltb a 0x80
    then utf8_loop fuel rest
    else if ltb a 0xC0
    then some false
    else if ltb a 0xE0
    then two_bytes (utf8_loop fuel) rest
    else if ltb a 0xF0
    then three_bytes (utf8_loop fuel) rest
    else some false

-- IsUTF8: each round goes on by a byte at least.
unfoldable pub is_utf8 : List ℕ → Option Bool
unfolding utf8_loop
is_utf8 bytes = utf8_loop (length bytes + 1) bytes

-- The size of a sequence by its first byte, and nothing for a byte in the middle of one.
unfoldable pub sequence_size : ℕ → Option ℕ
sequence_size c =
    if leb 0xFC c && leb c 0xFD
    then some 6
    else if leb 0xF8 c
    then some 5
    else if leb 0xF0 c
    then some 4
    else if leb 0xE0 c
    then some 3
    else if leb 0xC0 c
    then some 2
    else none

-- The loop of IsTextUTF8 with `nBytes` and `bAllAscii`, and the tests after it.
unfoldable pub text_loop : List ℕ → ℕ → Bool → Bool
unfolding is_continuation sequence_size
text_loop [] n all_ascii = if ltb 0 n then false else not all_ascii
text_loop (c ∷ cs) zero all_ascii =
    let ascii = all_ascii && bit_and c 0x80 == 0 in
    let next = λ (n : ℕ). text_loop cs n ascii in
    if leb 0x80 c
    then elim (sequence_size c) [ none ↦ false | some size ↦ next (size - 1) ]
    else next 0
text_loop (c ∷ cs) (suc n) all_ascii =
    let rest = text_loop cs n (all_ascii && bit_and c 0x80 == 0) in
    if is_continuation c then rest else false

unfoldable pub is_text_utf8 : List ℕ → Bool
unfolding text_loop
is_text_utf8 bytes = text_loop bytes 0 true

abbrev pub has_slash : List ℕ → Bool
has_slash [] = false
has_slash (c ∷ cs) = c == b'/' || has_slash cs

-- What stands after the last slash; everything, if there is none, since npos + 1 is 0.
unfoldable pub get_file_name_from_url : List ℕ → List ℕ
get_file_name_from_url [] = []
get_file_name_from_url (c ∷ url) =
    let rest = get_file_name_from_url url in
    if has_slash url then rest else if c == b'/' then url else c ∷ url

unfoldable pub start_with : List ℕ → List ℕ → Bool
start_with str prefix = text_eq (take (length prefix) str) prefix
