-- ===== src/Utf8/TextTest.antt =====
-- IsTextUTF8 against the encoding.
use Prim.Native.Nat.{bit_and}
use code_snippet.Common.{
  ℕ, suc, ◌+◌, ◌-◌, ◌/◌, ◌%◌, ◌≤◌, ◌<◌, ◌≡◌, refl, ap, ◌∙◌, inl, inr, List, [], ◌∷◌, ◌++◌, Bool,
  true, false, not, ◌&&◌, ◌||◌, some, arith, ltb, leb, ◌==◌, if◌then◌else◌, Bool-cases, ltb→lt,
  le→leb,
}
use code_snippet.Common.Bits.{passes_below, passes_below_lem}
use code_snippet.Utf8.{sequence_size, text_loop, is_text_utf8}
use code_snippet.Utf8.Encoding.{encode_point, encode_text, AllPoints, is_ascii, middle}

low_table : passes_below (λ x. bit_and x 0x80 == 0) 128 ≡ true
unfolding passes_below
low_table = refl

low_bit : (c : ℕ) → c < 128 → (bit_and c 0x80 == 0) ≡ true
low_bit c h = passes_below_lem (λ x. bit_and x 0x80 == 0) 128 c h low_table

none_high : passes_below (λ x. ltb x 128 || not (bit_and x 0x80 == 0)) 256 ≡ true
unfolding passes_below
none_high = refl

high_bit : (c : ℕ) → 128 ≤ c → c < 256 → (bit_and c 0x80 == 0) ≡ false
high_bit c low high =
    ground
      (arith, passes_below_lem (λ x. ltb x 128 || not (bit_and x 0x80 == 0)) 256 c high none_high)

sizes :
    (c : ℕ)
    → (0xC0 ≤ c → c < 0xE0 → sequence_size c ≡ some 2)
      × ((0xE0 ≤ c → c < 0xF0 → sequence_size c ≡ some 3)
          × (0xF0 ≤ c → c < 0xF8 → sequence_size c ≡ some 4))
unfolding sequence_size
sizes c = (λ low high. ground arith, (λ low high. ground arith, λ low high. ground arith))

-- A byte in the middle of a sequence.
middle_step :
    (x n : ℕ) (rest : List ℕ)
    → text_loop ((0x80 + x % 64) ∷ rest) (suc n) false ≡ text_loop rest n false
unfolding text_loop
middle_step x n rest = rw (middle x) refl

-- The first byte of a sequence.
lead_step :
    (c size : ℕ) (rest : List ℕ) (ascii : Bool)
    → 128 ≤ c
    → c < 256
    → sequence_size c ≡ some size
    → text_loop (c ∷ rest) 0 ascii ≡ text_loop rest (size - 1) false
unfolding text_loop
lead_step c size rest true low high e =
    rw (le→leb 128 c low, e) (ap (text_loop rest (size - 1)) (high_bit c low high))
lead_step c size rest false low high e = rw (le→leb 128 c low, e) refl

ascii_step :
    (c : ℕ) (rest : List ℕ) (ascii : Bool)
    → c < 128
    → text_loop (c ∷ rest) 0 ascii ≡ text_loop rest 0 (ascii && true)
unfolding text_loop
ascii_step c rest ascii h = rw (low_bit c h, below_first h) refl
  where
    below_first : c < 128 → leb 128 c ≡ false
    below_first h = ground arith

-- One encoded point: the flag stays up only for an ASCII character.
point_step :
    (p : ℕ) (rest : List ℕ) (ascii : Bool)
    → p < 0x110000
    → text_loop (encode_point p ++ rest) 0 ascii ≡ text_loop rest 0 (ascii && ltb p 0x80)
point_step p rest ascii h = elim (Bool-cases (ltb p 0x80)) [
  | inl one ↦ rw one (ascii_step p rest ascii (ltb→lt _ _ one))
  | inr more ↦ rw more (several ascii more)
]
  where
    flag_down : (ascii : Bool) → ascii && false ≡ false
    flag_down true = refl
    flag_down false = refl

    several :
        (ascii : Bool)
        → ltb p 0x80 ≡ false
        → text_loop
            ((if ltb p 0x800
                then (0xC0 + p / 64) ∷ (0x80 + p % 64) ∷ []
                else if ltb p 0x10000
                then (0xE0 + p / 4096) ∷ (0x80 + p / 64 % 64) ∷ (0x80 + p % 64) ∷ []
                else (0xF0 + p / 262144)
                  ∷ (0x80 + p / 4096 % 64)
                  ∷ (0x80 + p / 64 % 64)
                  ∷ (0x80 + p % 64)
                  ∷ [])
              ++ rest)
            0
            ascii
          ≡ text_loop rest 0 (ascii && false)
    several ascii more = rw (flag_down ascii) (elim (Bool-cases (ltb p 0x800)) [
      | inl two ↦ rw two (
          lead_step (0xC0 + p / 64) 2 ((0x80 + p % 64) ∷ rest) ascii (omega arith)
            (omega (arith, ltb→lt _ _ two))
            ((sizes (0xC0 + p / 64)).0 (omega arith) (omega (arith, ltb→lt _ _ two)))
          ∙ middle_step p 0 rest)
      | inr high ↦ elim (Bool-cases (ltb p 0x10000)) [
        | inl three ↦
            rw (high, three)
              (lead_step (0xE0 + p / 4096) 3 ((0x80 + p / 64 % 64) ∷ (0x80 + p % 64) ∷ rest) ascii
                  (omega arith) (omega (arith, ltb→lt _ _ three))
                  ((sizes (0xE0 + p / 4096)).1.0 (omega arith) (omega (arith, ltb→lt _ _ three)))
                ∙ middle_step (p / 64) 1 ((0x80 + p % 64) ∷ rest)
                ∙ middle_step p 0 rest)
        | inr four ↦
            rw (high, four)
              (lead_step (0xF0 + p / 262144) 4
                  ((0x80 + p / 4096 % 64) ∷ (0x80 + p / 64 % 64) ∷ (0x80 + p % 64) ∷ rest) ascii
                  (omega arith) (omega arith)
                  ((sizes (0xF0 + p / 262144)).1.1 (omega arith) (omega arith))
                ∙ middle_step (p / 4096) 2 ((0x80 + p / 64 % 64) ∷ (0x80 + p % 64) ∷ rest)
                ∙ middle_step (p / 64) 1 ((0x80 + p % 64) ∷ rest)
                ∙ middle_step p 0 rest)
      ]
    ])

flag_after :
    (ps : List ℕ) (ascii : Bool)
    → AllPoints 0x110000 ps
    → text_loop (encode_text ps) 0 ascii ≡ not (ascii && is_ascii ps)
unfolding text_loop
flag_after [] true h = refl
flag_after [] false h = refl
flag_after (p ∷ ps) ascii h =
    point_step p (encode_text ps) ascii h.0
    ∙ flag_after ps (ascii && ltb p 0x80) h.1
    ∙ ap not (and_assoc ascii (ltb p 0x80) (is_ascii ps))
  where
    and_assoc : (a b c : Bool) → (a && b) && c ≡ a && (b && c)
    and_assoc true b c = refl
    and_assoc false b c = refl

-- IsTextUTF8 accepts the encoding of a text of Unicode code points exactly if one of them is not an
-- ASCII character.
pub is_text_utf8-encode_text :
    (ps : List ℕ) → AllPoints 0x110000 ps → is_text_utf8 (encode_text ps) ≡ not (is_ascii ps)
unfolding is_text_utf8
is_text_utf8-encode_text ps h = flag_after ps true h
