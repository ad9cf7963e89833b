-- ===== src/Md5/CodecLaws.antt =====
-- The codecs are inverse to each other, and the hexadecimal text determines the bytes.
use code_snippet.Common.Bits.{bit_or-field, passes_below, passes_below_lem}
use code_snippet.Common.{
  ℕ, ◌+◌, ◌-◌, ◌*◌, ◌/◌, ◌%◌, ◌^◌, ◌<◌, ◌≡◌, refl, ap, ◌∙◌, List, [], ◌∷◌, true, arith, leb, ◌==◌,
  ==_iff, if◌then◌else◌, length, get_or,
}
use code_snippet.Md5.Codec.{encode, decode, hex, bytes_to_hex_string}
use code_snippet.Md5.Padding.{encode_word}

abbrev pub AllBelow : ℕ → List ℕ → Type 0
AllBelow n [] = Unit {0}
AllBelow n (x ∷ xs) = (x < n) × AllBelow n xs

decode_word :
    (p q r s : ℕ) (rest : List ℕ)
    → p < 256
    → q < 256
    → r < 256
    → decode (p ∷ q ∷ r ∷ s ∷ rest) ≡ (p + q * 2 ^ 8 + r * 2 ^ 16 + s * 2 ^ 24) ∷ decode rest
unfolding decode
decode_word p q r s rest hp hq hr =
    rw
      (
        bit_or-field 8 q p hp,
        bit_or-field 16 r (q * 2 ^ 8 + p) (omega arith),
        bit_or-field 24 s (r * 2 ^ 16 + (q * 2 ^ 8 + p)) (omega arith),
      )
      (ap (λ (w : ℕ). w ∷ decode rest) (omega arith))

-- Decoding undoes encoding on every list of uint32 words.
pub decode-encode : (ws : List ℕ) → AllBelow (2 ^ 32) ws → decode (encode ws) ≡ ws
decode-encode [] h = unfold encode decode in refl
decode-encode (w ∷ ws) h =
    ap decode (encode_word w ws)
    ∙ decode_word (w % 256) (w / 256 % 256) (w / 256 / 256 % 256) (w / 256 / 256 / 256 % 256)
        (encode ws) (omega arith) (omega arith) (omega arith)
    ∙ (λ k. whole w h.0 k ∷ decode-encode ws h.1 k)
  where
    whole :
        (w : ℕ)
        → w < 2 ^ 32
        → w % 256
            + w / 256 % 256 * 2 ^ 8
            + w / 256 / 256 % 256 * 2 ^ 16
            + w / 256 / 256 / 256 % 256 * 2 ^ 24
          ≡ w
    whole w h = omega arith

-- Encoding undoes decoding on every list of bytes whose length is a multiple of 4.
pub encode-decode : (bs : List ℕ) → AllBelow 256 bs → length bs % 4 ≡ 0 → encode (decode bs) ≡ bs
encode-decode [] h e = unfold encode decode in refl
encode-decode (p ∷ []) h e = absurd (omega arith)
encode-decode (p ∷ q ∷ []) h e = absurd (omega arith)
encode-decode (p ∷ q ∷ r ∷ []) h e = absurd (omega arith)
encode-decode (p ∷ q ∷ r ∷ s ∷ rest) h e =
    ap encode (decode_word p q r s rest h.0 h.1.0 h.1.1.0)
    ∙ encode_word (p + q * 2 ^ 8 + r * 2 ^ 16 + s * 2 ^ 24) (decode rest)
    ∙ (λ k. byte0 k ∷ byte1 k ∷ byte2 k ∷ byte3 k ∷ encode-decode rest h.1.1.1.1 (omega arith) k)
  where
    byte0 : (p + q * 2 ^ 8 + r * 2 ^ 16 + s * 2 ^ 24) % 256 ≡ p
    byte0 = omega arith

    byte1 : (p + q * 2 ^ 8 + r * 2 ^ 16 + s * 2 ^ 24) / 256 % 256 ≡ q
    byte1 = omega arith

    byte2 : (p + q * 2 ^ 8 + r * 2 ^ 16 + s * 2 ^ 24) / 256 / 256 % 256 ≡ r
    byte2 = omega arith

    byte3 : (p + q * 2 ^ 8 + r * 2 ^ 16 + s * 2 ^ 24) / 256 / 256 / 256 % 256 ≡ s
    byte3 = omega arith

-- The value of a hexadecimal digit as `MD5::HEX` writes it.
abbrev pub hex_value : ℕ → ℕ
hex_value c = if leb c b'9' then c - b'0' else c - 87

abbrev pub unhex : List ℕ → List ℕ
unhex (c ∷ d ∷ rest) = (hex_value c * 16 + hex_value d) ∷ unhex rest
unhex _ = []

hex_table : passes_below (λ n. hex_value (get_or hex n 0) == n) 16 ≡ true
unfolding passes_below
hex_table = refl

hex_digit : (n : ℕ) → n < 16 → hex_value (get_or hex n 0) ≡ n
hex_digit n h = (==_iff _ n).0 (passes_below_lem _ 16 n h hex_table)

-- The text has two digits for each byte, and the bytes can be read back from it.
pub unhex-bytes_to_hex_string :
    (bs : List ℕ)
    → AllBelow 256 bs
    → (unhex (bytes_to_hex_string bs) ≡ bs) × (length (bytes_to_hex_string bs) ≡ 2 * length bs)
unfolding bytes_to_hex_string
unhex-bytes_to_hex_string [] h = (refl, refl)
unhex-bytes_to_hex_string (b ∷ bs) h = (
  (λ k. byte k ∷ (unhex-bytes_to_hex_string bs h.1).0 k),
  omega (arith, (unhex-bytes_to_hex_string bs h.1).1),
)
  where
    byte : hex_value (get_or hex (b / 16) 0) * 16 + hex_value (get_or hex (b % 16) 0) ≡ b
    byte = omega (arith, hex_digit (b / 16) (omega arith), hex_digit (b % 16) (omega arith), h.0)
