-- ===== src/Md5/Padding.antt =====
-- The digest that RFC 1321 defines, and the padding it appends, in the terms of Md5.cpp.
use code_snippet.Common.{
  ℕ, zero, suc, ◌+◌, ◌-◌, ◌*◌, ◌/◌, ◌%◌, ◌^◌, ◌≤◌, ◌<◌, ◌≡◌, refl, sym, ap, ◌∙◌, List, [], ◌∷◌,
  ◌++◌, arith, length, take, replicate,
}
use code_snippet.Common.Bits.{bit_and-mask}
use code_snippet.Md5.Codec.{encode}
use native.Mathlib.Nat.{zero-add, suc-add}
use code_snippet.Md5.Context.{initial, padding, words, pad_len}
use code_snippet.Md5.Absorb.{absorb}

-- The `k` low bytes of a number, the lowest first.
abbrev pub le_bytes : ℕ → ℕ → List ℕ
le_bytes zero n = []
le_bytes (suc k) n = n % 256 ∷ le_bytes k (n / 256)

-- What RFC 1321 appends to a message of `n` bytes: the bit 1, zeros up to 56 mod 64, and the
-- length in bits as 64 bits.
abbrev pub zeros : ℕ → ℕ
zeros n = (119 - n % 64) % 64

abbrev pub appendix : ℕ → List ℕ
appendix n = 0x80 ∷ replicate (zeros n) 0 ++ le_bytes 8 (8 * n)

-- The digest of a message by that definition.
abbrev pub md5 : List ℕ → List ℕ
md5 message = encode (words (absorb (initial, []) (message ++ appendix (length message))).0)

pub take-replicate : (n k z : ℕ) → k ≤ n → take k (replicate n z) ≡ replicate k z
take-replicate n zero z h = refl
take-replicate zero (suc k) z h = absurd (omega arith)
take-replicate (suc n) (suc k) z h = ap (◌∷◌ z) (take-replicate n k z (omega arith))

pub replicate-add : (m n z : ℕ) → replicate (m + n) z ≡ replicate m z ++ replicate n z
replicate-add zero n z = ap (λ (k : ℕ). replicate k z) (zero-add n)
replicate-add (suc m) n z =
    ap (λ (k : ℕ). replicate k z) (suc-add m n) ∙ ap (◌∷◌ z) (replicate-add m n z)

pub cons_eq : {x y : ℕ} {xs ys : List ℕ} → x ≡ y → xs ≡ ys → x ∷ xs ≡ y ∷ ys
cons_eq p q = λ k. p k ∷ q k

pub encode_word : (w : ℕ) (ws : List ℕ) → encode (w ∷ ws) ≡ le_bytes 4 w ++ encode ws
unfolding encode
encode_word w ws = cons_eq (bit_and-mask 8 w) (
    cons_eq (bit_and-mask 8 (w / 2 ^ 8)) (
      cons_eq (omega (arith, bit_and-mask 8 (w / 2 ^ 16)))
        (cons_eq (omega (arith, bit_and-mask 8 (w / 2 ^ 24))) refl)))

pub le_bytes_words :
    (low high : ℕ)
    → low < 2 ^ 32
    → le_bytes 8 (high * 2 ^ 32 + low) ≡ le_bytes 4 low ++ (le_bytes 4 high ++ [])
le_bytes_words low high l = cons_eq (omega arith) (
    cons_eq (omega arith) (
      cons_eq (omega arith) (
        cons_eq (omega arith) (
          cons_eq (omega arith)
            (cons_eq (omega arith) (cons_eq (omega arith) (cons_eq (omega arith) refl)))))))

pub encode_bits :
    (low high n : ℕ)
    → low < 2 ^ 32
    → high * 2 ^ 32 + low ≡ n
    → encode (low ∷ high ∷ []) ≡ le_bytes 8 n
unfolding encode
encode_bits low high n l e =
    encode_word low (high ∷ [])
    ∙ ap (◌++◌ (le_bytes 4 low)) (encode_word high [])
    ∙ sym (le_bytes_words low high l)
    ∙ ap (le_bytes 8) e

pub pad_len-zeros : (n : ℕ) → (pad_len (n % 64) ≡ suc (zeros n)) × (zeros n ≤ 63)
unfolding pad_len
pad_len-zeros n = ground arith

pub pad_lem : (n : ℕ) → take (pad_len (n % 64)) padding ≡ 0x80 ∷ replicate (zeros n) 0
pad_lem n =
    rw (pad_len-zeros n).0 (ap (◌∷◌ 0x80) (take-replicate 63 (zeros n) 0 (pad_len-zeros n).1))

pub le_bytes_wrap : (n : ℕ) → le_bytes 8 (n % 2 ^ 64) ≡ le_bytes 8 n
le_bytes_wrap n = cons_eq (omega arith) (
    cons_eq (omega arith) (
      cons_eq (omega arith) (
        cons_eq (omega arith) (
          cons_eq (omega arith)
            (cons_eq (omega arith) (cons_eq (omega arith) (cons_eq (omega arith) refl)))))))
