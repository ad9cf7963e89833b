-- ===== src/Md5/Rounds.antt =====
-- Md5.cpp: the basic functions, the mixing step behind the macros
-- FF, GG, HH and II, and the unrolled block transformation. A uint32 is a number below 2 ^ 32 and
-- every addition wraps.
use Prim.Native.Nat.{bit_and, bit_or, bit_xor}
use code_snippet.Common.{ℕ, ◌+◌, ◌-◌, ◌^◌, List, u32, ◌<<<◌, ◌>>>◌, get_or}
use code_snippet.Md5.Codec.{decode}

-- The four words of `_state`.
pub record Regs : Type 0 where
  pub a : ℕ
  pub b : ℕ
  pub c : ℕ
  pub d : ℕ

-- `~x` on a uint32.
abbrev complement : ℕ → ℕ
complement x = 2 ^ 32 - 1 - x

unfoldable pub f : ℕ → ℕ → ℕ → ℕ
f x y z = bit_or (bit_and x y) (bit_and (complement x) z)

unfoldable pub g : ℕ → ℕ → ℕ → ℕ
g x y z = bit_or (bit_and x z) (bit_and y (complement z))

unfoldable pub h : ℕ → ℕ → ℕ → ℕ
h x y z = bit_xor (bit_xor x y) z

unfoldable pub i : ℕ → ℕ → ℕ → ℕ
i x y z = bit_xor y (bit_or x (complement z))

unfoldable pub rotate_left : ℕ → ℕ → ℕ
rotate_left x n = bit_or (u32 (x <<< n)) (x >>> (32 - n))

-- The common body of FF, GG, HH and II: the new value of their first argument.
unfoldable pub mix : (ℕ → ℕ → ℕ → ℕ) → ℕ → ℕ → ℕ → ℕ → ℕ → ℕ → ℕ → ℕ
unfolding rotate_left
mix fn a b c d x s ac = u32 (rotate_left (u32 (a + u32 (u32 (fn b c d + x) + ac))) s + b)

-- The macro applied to (a, b, c, d), (d, a, b, c), (c, d, a, b) and (b, c, d, a).
module _ (fn : ℕ → ℕ → ℕ → ℕ) (x s ac : ℕ) (r : Regs) where
  unfoldable pub on_a : Regs
  unfolding mix
  on_a = record r { a = mix fn r.a r.b r.c r.d x s ac }

  unfoldable pub on_d : Regs
  unfolding mix
  on_d = record r { d = mix fn r.d r.a r.b r.c x s ac }

  unfoldable pub on_c : Regs
  unfolding mix
  on_c = record r { c = mix fn r.c r.d r.a r.b x s ac }

  unfoldable pub on_b : Regs
  unfolding mix
  on_b = record r { b = mix fn r.b r.c r.d r.a x s ac }

abbrev pub word : List ℕ → ℕ → ℕ
word x k = get_or x k 0

unfoldable pub round1 : List ℕ → Regs → Regs
unfolding on_a on_b on_c on_d f
round1 x r =
    let r1 = on_a f (word x 0) 7 0xd76aa478 r in
    let r2 = on_d f (word x 1) 12 0xe8c7b756 r1 in
    let r3 = on_c f (word x 2) 17 0x242070db r2 in
    let r4 = on_b f (word x 3) 22 0xc1bdceee r3 in
    let r5 = on_a f (word x 4) 7 0xf57c0faf r4 in
    let r6 = on_d f (word x 5) 12 0x4787c62a r5 in
    let r7 = on_c f (word x 6) 17 0xa8304613 r6 in
    let r8 = on_b f (word x 7) 22 0xfd469501 r7 in
    let r9 = on_a f (word x 8) 7 0x698098d8 r8 in
    let r10 = on_d f (word x 9) 12 0x8b44f7af r9 in
    let r11 = on_c f (word x 10) 17 0xffff5bb1 r10 in
    let r12 = on_b f (word x 11) 22 0x895cd7be r11 in
    let r13 = on_a f (word x 12) 7 0x6b901122 r12 in
    let r14 = on_d f (word x 13) 12 0xfd987193 r13 in
    let r15 = on_c f (word x 14) 17 0xa679438e r14 in
    let r16 = on_b f (word x 15) 22 0x49b40821 r15 in r16

unfoldable pub round2 : List ℕ → Regs → Regs
unfolding on_a on_b on_c on_d g
round2 x r =
    let r1 = on_a g (word x 1) 5 0xf61e2562 r in
    let r2 = on_d g (word x 6) 9 0xc040b340 r1 in
    let r3 = on_c g (word x 11) 14 0x265e5a51 r2 in
    let r4 = on_b g (word x 0) 20 0xe9b6c7aa r3 in
    let r5 = on_a g (word x 5) 5 0xd62f105d r4 in
    let r6 = on_d g (word x 10) 9 0x2441453 r5 in
    let r7 = on_c g (word x 15) 14 0xd8a1e681 r6 in
    let r8 = on_b g (word x 4) 20 0xe7d3fbc8 r7 in
    let r9 = on_a g (word x 9) 5 0x21e1cde6 r8 in
    let r10 = on_d g (word x 14) 9 0xc33707d6 r9 in
    let r11 = on_c g (word x 3) 14 0xf4d50d87 r10 in
    let r12 = on_b g (word x 8) 20 0x455a14ed r11 in
    let r13 = on_a g (word x 13) 5 0xa9e3e905 r12 in
    let r14 = on_d g (word x 2) 9 0xfcefa3f8 r13 in
    let r15 = on_c g (word x 7) 14 0x676f02d9 r14 in
    let r16 = on_b g (word x 12) 20 0x8d2a4c8a r15 in r16

unfoldable pub round3 : List ℕ → Regs → Regs
unfolding on_a on_b on_c on_d h
round3 x r =
    let r1 = on_a h (word x 5) 4 0xfffa3942 r in
    let r2 = on_d h (word x 8) 11 0x8771f681 r1 in
    let r3 = on_c h (word x 11) 16 0x6d9d6122 r2 in
    let r4 = on_b h (word x 14) 23 0xfde5380c r3 in
    let r5 = on_a h (word x 1) 4 0xa4beea44 r4 in
    let r6 = on_d h (word x 4) 11 0x4bdecfa9 r5 in
    let r7 = on_c h (word x 7) 16 0xf6bb4b60 r6 in
    let r8 = on_b h (word x 10) 23 0xbebfbc70 r7 in
    let r9 = on_a h (word x 13) 4 0x289b7ec6 r8 in
    let r10 = on_d h (word x 0) 11 0xeaa127fa r9 in
    let r11 = on_c h (word x 3) 16 0xd4ef3085 r10 in
    let r12 = on_b h (word x 6) 23 0x4881d05 r11 in
    let r13 = on_a h (word x 9) 4 0xd9d4d039 r12 in
    let r14 = on_d h (word x 12) 11 0xe6db99e5 r13 in
    let r15 = on_c h (word x 15) 16 0x1fa27cf8 r14 in
    let r16 = on_b h (word x 2) 23 0xc4ac5665 r15 in r16

unfoldable pub round4 : List ℕ → Regs → Regs
unfolding on_a on_b on_c on_d i
round4 x r =
    let r1 = on_a i (word x 0) 6 0xf4292244 r in
    let r2 = on_d i (word x 7) 10 0x432aff97 r1 in
    let r3 = on_c i (word x 14) 15 0xab9423a7 r2 in
    let r4 = on_b i (word x 5) 21 0xfc93a039 r3 in
    let r5 = on_a i (word x 12) 6 0x655b59c3 r4 in
    let r6 = on_d i (word x 3) 10 0x8f0ccc92 r5 in
    let r7 = on_c i (word x 10) 15 0xffeff47d r6 in
    let r8 = on_b i (word x 1) 21 0x85845dd1 r7 in
    let r9 = on_a i (word x 8) 6 0x6fa87e4f r8 in
    let r10 = on_d i (word x 15) 10 0xfe2ce6e0 r9 in
    let r11 = on_c i (word x 6) 15 0xa3014314 r10 in
    let r12 = on_b i (word x 13) 21 0x4e0811a1 r11 in
    let r13 = on_a i (word x 4) 6 0xf7537e82 r12 in
    let r14 = on_d i (word x 11) 10 0xbd3af235 r13 in
    let r15 = on_c i (word x 2) 15 0x2ad7d2bb r14 in
    let r16 = on_b i (word x 9) 21 0xeb86d391 r15 in r16

-- `_state[k] += …`
unfoldable pub add_state : Regs → Regs → Regs
add_state s r = record {
  a = u32 (s.a + r.a);
  b = u32 (s.b + r.b);
  c = u32 (s.c + r.c);
  d = u32 (s.d + r.d);
}

unfoldable pub transform : Regs → List ℕ → Regs
unfolding round1 round2 round3 round4 add_state decode
transform state block =
    let x = decode block in add_state state (round4 x (round3 x (round2 x (round1 x state))))
