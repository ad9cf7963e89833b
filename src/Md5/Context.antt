-- ===== src/Md5/Context.antt =====
-- Md5.cpp: the context, and the operations that change it.
use Prim.Native.Nat.{bit_and}
use code_snippet.Common.{
  ℕ, zero, suc, ◌+◌, ◌-◌, List, [], ◌∷◌, ◌++◌, Bool, true, false, u32, ◌<<<◌, ◌>>>◌, ltb, leb,
  if◌then◌else◌, length, take, drop, replicate,
}
use code_snippet.Md5.Codec.{encode, bytes_to_hex_string}
use code_snippet.Md5.Rounds.{Regs, transform}

pub record Md5 : Type 0 where
  pub state : Regs
  pub count0 : ℕ
  pub count1 : ℕ
  pub buffer : List ℕ
  pub digest_bytes : List ℕ
  pub finished : Bool

abbrev pub initial : Regs
initial = record { a = 0x67452301; b = 0xefcdab89; c = 0x98badcfe; d = 0x10325476 }

-- The arrays `_buffer` and `_digest` keep what they hold.
unfoldable pub reset : Md5 → Md5
reset m = record m { state = initial; count0 = 0; count1 = 0; finished = false }

-- memcpy(&buf[at], bytes, length)
unfoldable pub memcpy : List ℕ → ℕ → List ℕ → List ℕ
memcpy buf at bytes = take at buf ++ (bytes ++ drop (at + length bytes) buf)

-- Number of bytes mod 64.
unfoldable pub buffered : Md5 → ℕ
buffered m = bit_and (m.count0 >>> 3) 0x3f

-- The two lines that update the number of bits.
unfoldable pub add_count : Md5 → ℕ → Md5
add_count m length =
    let bits = u32 (u32 length <<< 3) in
    let low = u32 (m.count0 + bits) in
    let carried = if ltb low bits then u32 (m.count1 + 1) else m.count1 in
    record m { count0 = low; count1 = u32 (carried + (u32 length >>> 29)) }

-- `for (i = partLen; i + 63 < length; i += 64)`, with the final value of the uint32 `i`.
unfoldable pub transform_blocks : ℕ → Regs → ℕ → List ℕ → Regs × ℕ
transform_blocks zero state i input = (state, i)
transform_blocks (suc fuel) state i input = elim (ltb (u32 (i + 63)) (length input)) [
  | true ↦ transform_blocks fuel (transform state (take 64 (drop i input))) (u32 (i + 64)) input
  | false ↦ (state, i)
]

-- The branch for `length >= partLen`, with `_buffer` filled up.
unfoldable pub update_blocks : Md5 → List ℕ → ℕ → List ℕ → Md5
unfolding memcpy transform_blocks
update_blocks m input part_len filled =
    let (state, i) = transform_blocks (length input) (transform m.state filled) part_len input in
    record m { state = state; buffer = memcpy filled 0 (drop i input) }

unfoldable pub update : Md5 → List ℕ → Md5
unfolding memcpy buffered add_count update_blocks
update m input =
    let index = buffered m in
    let part_len = 64 - index in
    let m' = record (add_count m (length input)) { finished = false } in
    if leb part_len (length input)
    then update_blocks m' input part_len (memcpy m.buffer index (take part_len input))
    else record m' { buffer = memcpy m.buffer index input }

abbrev pub padding : List ℕ
padding = 0x80 ∷ replicate 63 0

abbrev pub words : Regs → List ℕ
words s = s.a ∷ s.b ∷ s.c ∷ s.d ∷ []

unfoldable pub pad_len : ℕ → ℕ
pad_len index = if ltb index 56 then 56 - index else 120 - index

-- The context is restored, but for `_buffer`, `_digest` and the flag that `update` clears.
unfoldable pub final : Md5 → Md5
unfolding encode buffered pad_len update
final m =
    let bits = encode (m.count0 ∷ m.count1 ∷ []) in
    let padded = update m (take (pad_len (buffered m)) padding) in
    let done = update padded bits in
    record done {
      digest_bytes = encode (words done.state);
      state = m.state;
      count0 = m.count0;
      count1 = m.count1;
    }

-- The flag is set before `final`, whose updates clear it again.
unfoldable pub digest : Md5 → Md5 × List ℕ
unfolding final
digest m =
    let m' = if m.finished then m else final (record m { finished = true }) in (m', m'.digest_bytes)

unfoldable pub to_string : Md5 → Md5 × List ℕ
unfolding digest bytes_to_hex_string
to_string m = let (m', bytes) = digest m in (m', bytes_to_hex_string bytes)
