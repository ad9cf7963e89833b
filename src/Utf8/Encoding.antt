-- ===== src/Utf8/Encoding.antt =====
-- The two tests against the encoding that UTF-8 defines, and the name of a file in a URL.
use code_snippet.Common.{
  ℕ, zero, suc, ◌+◌, ◌/◌, ◌%◌, ◌≤◌, ◌<◌, ◌≡◌, refl, ap, ◌∙◌, inl, inr, List, [], ◌∷◌, ◌++◌, Bool,
  true, false, ◌&&◌, some, arith, ltb, if◌then◌else◌, length, length-append, append_assoc,
  Bool-cases, ltb→lt, lt→ltb, le→ltb_false,
}
use code_snippet.Common.Bits.{passes_below, passes_below_lem}
use code_snippet.Utf8.{is_continuation, two_bytes, three_bytes, utf8_loop, is_utf8}

-- The encoding of a code point, as RFC 3629 defines it.
abbrev pub encode_point : ℕ → List ℕ
encode_point p =
    if ltb p 0x80
    then p ∷ []
    else if ltb p 0x800
    then (0xC0 + p / 64) ∷ (0x80 + p % 64) ∷ []
    else if ltb p 0x10000
    then (0xE0 + p / 4096) ∷ (0x80 + p / 64 % 64) ∷ (0x80 + p % 64) ∷ []
    else (0xF0 + p / 262144) ∷ (0x80 + p / 4096 % 64) ∷ (0x80 + p / 64 % 64) ∷ (0x80 + p % 64) ∷ []

abbrev pub encode_text : List ℕ → List ℕ
encode_text [] = []
encode_text (p ∷ ps) = encode_point p ++ encode_text ps

abbrev pub AllPoints : ℕ → List ℕ → Type 0
AllPoints bound [] = Unit {0}
AllPoints bound (p ∷ ps) = (p < bound) × AllPoints bound ps

abbrev pub is_ascii : List ℕ → Bool
is_ascii [] = true
is_ascii (p ∷ ps) = ltb p 0x80 && is_ascii ps

middle_table : passes_below (λ x. is_continuation (0x80 + x)) 64 ≡ true
unfolding passes_below is_continuation
middle_table = refl

pub middle : (x : ℕ) → is_continuation (0x80 + x % 64) ≡ true
middle x = passes_below_lem (λ y. is_continuation (0x80 + y)) 64 (x % 64) (omega arith) middle_table

-- The first byte of a sequence of two or three.
lead_of_two :
    (fuel a : ℕ) (rest : List ℕ)
    → 0xC0 ≤ a
    → a < 0xE0
    → utf8_loop (suc fuel) (a ∷ rest) ≡ two_bytes (utf8_loop fuel) rest
unfolding utf8_loop
lead_of_two fuel a rest low high =
    rw (le→ltb_false a 0x80 (omega arith), le→ltb_false a 0xC0 low, lt→ltb a 0xE0 high) refl

lead_of_three :
    (fuel a : ℕ) (rest : List ℕ)
    → 0xE0 ≤ a
    → a < 0xF0
    → utf8_loop (suc fuel) (a ∷ rest) ≡ three_bytes (utf8_loop fuel) rest
unfolding utf8_loop
lead_of_three fuel a rest low high =
    rw
      (
        le→ltb_false a 0x80 (omega arith),
        le→ltb_false a 0xC0 (omega arith),
        le→ltb_false a 0xE0 low,
        lt→ltb a 0xF0 high,
      )
      refl

lead_of_four :
    (fuel a : ℕ) (rest : List ℕ) → 0xF0 ≤ a → utf8_loop (suc fuel) (a ∷ rest) ≡ some false
unfolding utf8_loop
lead_of_four fuel a rest low =
    rw
      (
        le→ltb_false a 0x80 (omega arith),
        le→ltb_false a 0xC0 (omega arith),
        le→ltb_false a 0xE0 (omega arith),
        le→ltb_false a 0xF0 low,
      )
      refl

-- IsUTF8 over one encoded point of at most three bytes.
point_step :
    (fuel p : ℕ) (rest : List ℕ)
    → p < 0x10000
    → utf8_loop (suc fuel) (encode_point p ++ rest) ≡ utf8_loop fuel rest
unfolding utf8_loop two_bytes three_bytes
point_step fuel p rest h = elim (Bool-cases (ltb p 0x80)) [
  | inl one ↦ rw one (rw one refl)
  | inr more ↦ elim (Bool-cases (ltb p 0x800)) [
    | inl two ↦
        rw (more, two)
          (lead_of_two fuel (0xC0 + p / 64) ((0x80 + p % 64) ∷ rest) (omega arith)
              (omega (arith, ltb→lt _ _ two))
            ∙ (rw (middle p) refl))
    | inr three ↦
        rw (more, three, lt→ltb p 0x10000 h)
          (lead_of_three fuel (0xE0 + p / 4096) ((0x80 + p / 64 % 64) ∷ (0x80 + p % 64) ∷ rest)
              (omega arith) (omega arith)
            ∙ (rw (middle (p / 64), middle p) refl))
  ]
]

enough_rounds :
    (fuel : ℕ) (ps : List ℕ)
    → AllPoints 0x10000 ps
    → length ps < fuel
    → utf8_loop fuel (encode_text ps) ≡ some true
unfolding utf8_loop
enough_rounds zero ps h enough = absurd (omega arith)
enough_rounds (suc fuel) [] h enough = refl
enough_rounds (suc fuel) (p ∷ ps) h enough =
    point_step fuel p (encode_text ps) h.0 ∙ enough_rounds fuel ps h.1 (omega arith)

one_byte_at_least : (p : ℕ) → 1 ≤ length (encode_point p)
one_byte_at_least p = ground arith

points_fit : (ps : List ℕ) → length ps ≤ length (encode_text ps)
points_fit [] = omega arith
points_fit (p ∷ ps) =
    omega
      (arith, one_byte_at_least p, length-append (encode_point p) (encode_text ps), points_fit ps)

-- IsUTF8 accepts the encoding of every text whose code points are below 0x10000.
pub is_utf8-encode_text :
    (ps : List ℕ) → AllPoints 0x10000 ps → is_utf8 (encode_text ps) ≡ some true
unfolding is_utf8
is_utf8-encode_text ps h =
    enough_rounds (length (encode_text ps) + 1) ps h (omega (arith, points_fit ps))

four_bytes :
    (p : ℕ) → 0x10000 ≤ p → ltb p 0x80 ≡ false × ltb p 0x800 ≡ false × ltb p 0x10000 ≡ false
four_bytes p h = (
  le→ltb_false p 0x80 (omega arith),
  le→ltb_false p 0x800 (omega arith),
  le→ltb_false p 0x10000 h,
)

rejects_from :
    (fuel p : ℕ) (ps rest : List ℕ)
    → AllPoints 0x10000 ps
    → 0x10000 ≤ p
    → length ps < fuel
    → utf8_loop fuel (encode_text ps ++ (encode_point p ++ rest)) ≡ some false
rejects_from zero ps p rest h high enough = absurd (omega arith)
rejects_from (suc fuel) p [] rest h high enough =
    let (one, two, three) = four_bytes p high in
    rw (one, two, three) (lead_of_four fuel _ _ (omega arith))
rejects_from (suc fuel) p (q ∷ ps) rest h high enough =
    ap (utf8_loop (suc fuel))
      (append_assoc (encode_point q) (encode_text ps) (encode_point p ++ rest))
    ∙ point_step fuel q (encode_text ps ++ (encode_point p ++ rest)) h.0
    ∙ rejects_from fuel p ps rest h.1 high (omega arith)

-- IsUTF8 rejects every text with a code point from 0x10000 on, which takes four bytes: the
-- encoding of such a point stands anywhere after the encoding of smaller ones.
pub is_utf8-rejects :
    (p : ℕ) (ps rest : List ℕ)
    → AllPoints 0x10000 ps
    → 0x10000 ≤ p
    → is_utf8 (encode_text ps ++ (encode_point p ++ rest)) ≡ some false
unfolding is_utf8
is_utf8-rejects p ps rest h high =
    rejects_from (length (encode_text ps ++ (encode_point p ++ rest)) + 1) p ps rest h high
      (omega (arith, points_fit ps, length-append (encode_text ps) (encode_point p ++ rest)))
