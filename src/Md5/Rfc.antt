-- ===== src/Md5/Rfc.antt =====
-- The unrolled transformation of Md5.cpp against the tables of RFC 1321: 64 equal steps, each of
-- which rotates the four registers, with the word index, the shift and the constant of its number.
use code_snippet.Common.{
  ℕ, zero, suc, ◌+◌, ◌*◌, ◌/◌, ◌%◌, ◌≡◌, refl, sym, ap, ◌∙◌, List, [], ◌∷◌, get_or,
}
use code_snippet.Md5.Codec.{decode}
use code_snippet.Md5.Rounds.{
  Regs, f, g, h, i, mix, on_a, on_b, on_c, on_d, word, round1, round2, round3, round4, add_state,
  transform,
}

-- The integer part of 2 ^ 32 * |sin (k + 1)|, for k from 0 to 63.
abbrev sines : List ℕ
sines =
    0xd76aa478 ∷ 0xe8c7b756 ∷ 0x242070db ∷ 0xc1bdceee ∷ 0xf57c0faf ∷ 0x4787c62a ∷ 0xa8304613
    ∷ 0xfd469501 ∷ 0x698098d8 ∷ 0x8b44f7af ∷ 0xffff5bb1 ∷ 0x895cd7be ∷ 0x6b901122 ∷ 0xfd987193
    ∷ 0xa679438e ∷ 0x49b40821 ∷ 0xf61e2562 ∷ 0xc040b340 ∷ 0x265e5a51 ∷ 0xe9b6c7aa ∷ 0xd62f105d
    ∷ 0x02441453 ∷ 0xd8a1e681 ∷ 0xe7d3fbc8 ∷ 0x21e1cde6 ∷ 0xc33707d6 ∷ 0xf4d50d87 ∷ 0x455a14ed
    ∷ 0xa9e3e905 ∷ 0xfcefa3f8 ∷ 0x676f02d9 ∷ 0x8d2a4c8a ∷ 0xfffa3942 ∷ 0x8771f681 ∷ 0x6d9d6122
    ∷ 0xfde5380c ∷ 0xa4beea44 ∷ 0x4bdecfa9 ∷ 0xf6bb4b60 ∷ 0xbebfbc70 ∷ 0x289b7ec6 ∷ 0xeaa127fa
    ∷ 0xd4ef3085 ∷ 0x04881d05 ∷ 0xd9d4d039 ∷ 0xe6db99e5 ∷ 0x1fa27cf8 ∷ 0xc4ac5665 ∷ 0xf4292244
    ∷ 0x432aff97 ∷ 0xab9423a7 ∷ 0xfc93a039 ∷ 0x655b59c3 ∷ 0x8f0ccc92 ∷ 0xffeff47d ∷ 0x85845dd1
    ∷ 0x6fa87e4f ∷ 0xfe2ce6e0 ∷ 0xa3014314 ∷ 0x4e0811a1 ∷ 0xf7537e82 ∷ 0xbd3af235 ∷ 0x2ad7d2bb
    ∷ 0xeb86d391 ∷ []

abbrev shifts : List ℕ
shifts = 7 ∷ 12 ∷ 17 ∷ 22 ∷ 5 ∷ 9 ∷ 14 ∷ 20 ∷ 4 ∷ 11 ∷ 16 ∷ 23 ∷ 6 ∷ 10 ∷ 15 ∷ 21 ∷ []

abbrev round_fn : ℕ → ℕ → ℕ → ℕ → ℕ
round_fn zero = f
round_fn (suc zero) = g
round_fn (suc (suc zero)) = h
round_fn _ = i

-- Which word of the block step `k` reads.
abbrev word_index : ℕ → ℕ → ℕ
word_index zero k = k
word_index (suc zero) k = (5 * k + 1) % 16
word_index (suc (suc zero)) k = (3 * k + 5) % 16
word_index _ k = 7 * k % 16

-- One step: (A, B, C, D) becomes (D, B + …, B, C).
unfoldable pub turn : (ℕ → ℕ → ℕ → ℕ) → ℕ → ℕ → ℕ → Regs → Regs
turn fn x s ac r = record { a = r.d; b = mix fn r.a r.b r.c r.d x s ac; c = r.b; d = r.c }

abbrev step : List ℕ → ℕ → Regs → Regs
step x k =
    turn (round_fn (k / 16)) (word x (word_index (k / 16) k)) (get_or shifts (k / 16 * 4 + k % 4) 0)
      (get_or sines k 0)

pub steps : List ℕ → ℕ → ℕ → Regs → Regs
steps x zero k r = r
steps x (suc n) k r = steps x n (suc k) (step x k r)

-- The transformation by the tables.
pub by_table : Regs → List ℕ → Regs
unfolding steps
by_table state block = add_state state (steps (decode block) 64 0 state)

-- Four calls of a macro, on (a, b, c, d), (d, a, b, c), (c, d, a, b) and (b, c, d, a), are four
-- steps: the registers are back in their places.
turns_lem :
    (fn : ℕ → ℕ → ℕ → ℕ) (x0 s0 k0 x1 s1 k1 x2 s2 k2 x3 s3 k3 : ℕ) (r : Regs)
    → turn fn x3 s3 k3 (turn fn x2 s2 k2 (turn fn x1 s1 k1 (turn fn x0 s0 k0 r)))
      ≡ on_b fn x3 s3 k3 (on_c fn x2 s2 k2 (on_d fn x1 s1 k1 (on_a fn x0 s0 k0 r)))
unfolding turn on_a on_b on_c on_d
turns_lem fn x0 s0 k0 x1 s1 k1 x2 s2 k2 x3 s3 k3 r = refl

round1_lem : (x : List ℕ) (r : Regs) → steps x 16 0 r ≡ round1 x r
unfolding steps round1
round1_lem x r =
    let r1 : Regs = on_b f (word x 3) 22 0xc1bdceee (
      on_c f (word x 2) 17 0x242070db
        (on_d f (word x 1) 12 0xe8c7b756 (on_a f (word x 0) 7 0xd76aa478 r))) in
    let r2 : Regs = on_b f (word x 7) 22 0xfd469501 (
      on_c f (word x 6) 17 0xa8304613
        (on_d f (word x 5) 12 0x4787c62a (on_a f (word x 4) 7 0xf57c0faf r1))) in
    let r3 : Regs = on_b f (word x 11) 22 0x895cd7be (
      on_c f (word x 10) 17 0xffff5bb1
        (on_d f (word x 9) 12 0x8b44f7af (on_a f (word x 8) 7 0x698098d8 r2))) in
    ap (steps x 12 4) (
      turns_lem f (word x 0) 7 0xd76aa478 (word x 1) 12 0xe8c7b756 (word x 2) 17 0x242070db
        (word x 3) 22 0xc1bdceee r)
    ∙ ap (steps x 8 8) (
        turns_lem f (word x 4) 7 0xf57c0faf (word x 5) 12 0x4787c62a (word x 6) 17 0xa8304613
          (word x 7) 22 0xfd469501 r1)
    ∙ ap (steps x 4 12) (
        turns_lem f (word x 8) 7 0x698098d8 (word x 9) 12 0x8b44f7af (word x 10) 17 0xffff5bb1
          (word x 11) 22 0x895cd7be r2)
    ∙ turns_lem f (word x 12) 7 0x6b901122 (word x 13) 12 0xfd987193 (word x 14) 17 0xa679438e
        (word x 15) 22 0x49b40821 r3

round2_lem : (x : List ℕ) (r : Regs) → steps x 16 16 r ≡ round2 x r
unfolding steps round2
round2_lem x r =
    let r1 : Regs = on_b g (word x 0) 20 0xe9b6c7aa (
      on_c g (word x 11) 14 0x265e5a51
        (on_d g (word x 6) 9 0xc040b340 (on_a g (word x 1) 5 0xf61e2562 r))) in
    let r2 : Regs = on_b g (word x 4) 20 0xe7d3fbc8 (
      on_c g (word x 15) 14 0xd8a1e681
        (on_d g (word x 10) 9 0x2441453 (on_a g (word x 5) 5 0xd62f105d r1))) in
    let r3 : Regs = on_b g (word x 8) 20 0x455a14ed (
      on_c g (word x 3) 14 0xf4d50d87
        (on_d g (word x 14) 9 0xc33707d6 (on_a g (word x 9) 5 0x21e1cde6 r2))) in
    ap (steps x 12 20) (
      turns_lem g (word x 1) 5 0xf61e2562 (word x 6) 9 0xc040b340 (word x 11) 14 0x265e5a51
        (word x 0) 20 0xe9b6c7aa r)
    ∙ ap (steps x 8 24) (
        turns_lem g (word x 5) 5 0xd62f105d (word x 10) 9 0x2441453 (word x 15) 14 0xd8a1e681
          (word x 4) 20 0xe7d3fbc8 r1)
    ∙ ap (steps x 4 28) (
        turns_lem g (word x 9) 5 0x21e1cde6 (word x 14) 9 0xc33707d6 (word x 3) 14 0xf4d50d87
          (word x 8) 20 0x455a14ed r2)
    ∙ turns_lem g (word x 13) 5 0xa9e3e905 (word x 2) 9 0xfcefa3f8 (word x 7) 14 0x676f02d9
        (word x 12) 20 0x8d2a4c8a r3

round3_lem : (x : List ℕ) (r : Regs) → steps x 16 32 r ≡ round3 x r
unfolding steps round3
round3_lem x r =
    let r1 : Regs = on_b h (word x 14) 23 0xfde5380c (
      on_c h (word x 11) 16 0x6d9d6122
        (on_d h (word x 8) 11 0x8771f681 (on_a h (word x 5) 4 0xfffa3942 r))) in
    let r2 : Regs = on_b h (word x 10) 23 0xbebfbc70 (
      on_c h (word x 7) 16 0xf6bb4b60
        (on_d h (word x 4) 11 0x4bdecfa9 (on_a h (word x 1) 4 0xa4beea44 r1))) in
    let r3 : Regs = on_b h (word x 6) 23 0x4881d05 (
      on_c h (word x 3) 16 0xd4ef3085
        (on_d h (word x 0) 11 0xeaa127fa (on_a h (word x 13) 4 0x289b7ec6 r2))) in
    ap (steps x 12 36) (
      turns_lem h (word x 5) 4 0xfffa3942 (word x 8) 11 0x8771f681 (word x 11) 16 0x6d9d6122
        (word x 14) 23 0xfde5380c r)
    ∙ ap (steps x 8 40) (
        turns_lem h (word x 1) 4 0xa4beea44 (word x 4) 11 0x4bdecfa9 (word x 7) 16 0xf6bb4b60
          (word x 10) 23 0xbebfbc70 r1)
    ∙ ap (steps x 4 44) (
        turns_lem h (word x 13) 4 0x289b7ec6 (word x 0) 11 0xeaa127fa (word x 3) 16 0xd4ef3085
          (word x 6) 23 0x4881d05 r2)
    ∙ turns_lem h (word x 9) 4 0xd9d4d039 (word x 12) 11 0xe6db99e5 (word x 15) 16 0x1fa27cf8
        (word x 2) 23 0xc4ac5665 r3

round4_lem : (x : List ℕ) (r : Regs) → steps x 16 48 r ≡ round4 x r
unfolding steps round4
round4_lem x r =
    let r1 : Regs = on_b i (word x 5) 21 0xfc93a039 (
      on_c i (word x 14) 15 0xab9423a7
        (on_d i (word x 7) 10 0x432aff97 (on_a i (word x 0) 6 0xf4292244 r))) in
    let r2 : Regs = on_b i (word x 1) 21 0x85845dd1 (
      on_c i (word x 10) 15 0xffeff47d
        (on_d i (word x 3) 10 0x8f0ccc92 (on_a i (word x 12) 6 0x655b59c3 r1))) in
    let r3 : Regs = on_b i (word x 13) 21 0x4e0811a1 (
      on_c i (word x 6) 15 0xa3014314
        (on_d i (word x 15) 10 0xfe2ce6e0 (on_a i (word x 8) 6 0x6fa87e4f r2))) in
    ap (steps x 12 52) (
      turns_lem i (word x 0) 6 0xf4292244 (word x 7) 10 0x432aff97 (word x 14) 15 0xab9423a7
        (word x 5) 21 0xfc93a039 r)
    ∙ ap (steps x 8 56) (
        turns_lem i (word x 12) 6 0x655b59c3 (word x 3) 10 0x8f0ccc92 (word x 10) 15 0xffeff47d
          (word x 1) 21 0x85845dd1 r1)
    ∙ ap (steps x 4 60) (
        turns_lem i (word x 8) 6 0x6fa87e4f (word x 15) 10 0xfe2ce6e0 (word x 6) 15 0xa3014314
          (word x 13) 21 0x4e0811a1 r2)
    ∙ turns_lem i (word x 4) 6 0xf7537e82 (word x 11) 10 0xbd3af235 (word x 2) 15 0x2ad7d2bb
        (word x 9) 21 0xeb86d391 r3

-- The four rounds one after the other.
rounds_lem : (x : List ℕ) (r : Regs) → steps x 64 0 r ≡ round4 x (round3 x (round2 x (round1 x r)))
unfolding steps
rounds_lem x r =
    ap (steps x 48 16) (round1_lem x r)
    ∙ ap (steps x 32 32) (round2_lem x (round1 x r))
    ∙ ap (steps x 16 48) (round3_lem x (round2 x (round1 x r)))
    ∙ round4_lem x (round3 x (round2 x (round1 x r)))

-- The unrolled transformation computes what the tables of RFC 1321 say, for every block and state.
pub transform-by_table :
    (state : Regs) (block : List ℕ) → transform state block ≡ by_table state block
unfolding by_table add_state
transform-by_table state block =
    opened state block ∙ ap (add_state state) (sym (rounds_lem (decode block) state))
  where
    opened :
        (state : Regs) (block : List ℕ)
        → transform state block
          ≡ add_state state (
              round4
                (decode block)
                (round3 (decode block) (round2 (decode block) (round1 (decode block) state))))
    opened state block = unfold transform in refl
