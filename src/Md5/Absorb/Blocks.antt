-- ===== src/Md5/Absorb/Blocks.antt =====
-- The byte-by-byte description, and the loop over whole blocks (Md5.cpp line 182).
use code_snippet.Common.{
  ℕ, zero, suc, ◌+◌, ◌%◌, ◌^◌, ◌≤◌, ◌<◌, ◌≡◌, refl, ap, ◌∙◌, inl, inr, List, [], ◌∷◌, ◌++◌, arith,
  u32, ltb, ◌==◌, if◌then◌else◌, Bool-cases, length, take, drop, append_assoc, append-nil,
  length-append, length-take, length-drop, take-append-drop, drop-drop,
}
use code_snippet.Md5.Rounds.{Regs, transform}
use code_snippet.Md5.Context.{transform_blocks}

-- One byte: the block is transformed when it is full.
abbrev pub push : Regs → List ℕ → ℕ → Regs × List ℕ
push s pending byte =
    let block = pending ++ byte ∷ [] in
    if length block == 64 then (transform s block, []) else (s, block)

abbrev pub absorb : Regs × List ℕ → List ℕ → Regs × List ℕ
absorb v [] = v
absorb v (x ∷ xs) = absorb (push v.0 v.1 x) xs

pub absorb-append :
    (v : Regs × List ℕ) (xs ys : List ℕ) → absorb v (xs ++ ys) ≡ absorb (absorb v xs) ys
absorb-append v [] ys = refl
absorb-append v (x ∷ xs) ys = absorb-append (push v.0 v.1 x) xs ys

push_short : (s : Regs) (p : List ℕ) (x : ℕ) → length p + 1 < 64 → push s p x ≡ (s, p ++ x ∷ [])
push_short s p x h = ground (arith, length-append p (x ∷ []))

push_full :
    (s : Regs) (p : List ℕ) (x : ℕ)
    → length p + 1 ≡ 64
    → push s p x ≡ (transform s (p ++ x ∷ []), [])
push_full s p x h = ground (arith, length-append p (x ∷ []))

-- Input that does not fill the block is kept.
pub absorb_short :
    (s : Regs) (p xs : List ℕ) → length p + length xs < 64 → absorb (s, p) xs ≡ (s, p ++ xs)
absorb_short s p [] h = rw append-nil
absorb_short s p (x ∷ xs) h = rw (push_short s p x (omega arith)) (
    absorb_short s (p ++ x ∷ []) xs (omega (arith, length-append p (x ∷ [])))
    ∙ ap (λ (q : List ℕ). (s, q)) (append_assoc p (x ∷ []) xs))

-- Input that fills the block exactly is transformed with what was pending.
pub absorb_full :
    (s : Regs) (p : List ℕ) (x : ℕ) (xs : List ℕ)
    → length p + length (x ∷ xs) ≡ 64
    → absorb (s, p) (x ∷ xs) ≡ (transform s (p ++ x ∷ xs), [])
absorb_full s p x [] h = push_full s p x (omega arith)
absorb_full s p x (y ∷ xs) h = rw (push_short s p x (omega arith)) (
    absorb_full s (p ++ x ∷ []) y xs (omega (arith, length-append p (x ∷ [])))
    ∙ ap (λ (q : List ℕ). (transform s q, [])) (append_assoc p (x ∷ []) (y ∷ xs)))

pub absorb_block :
    (s : Regs) (p xs : List ℕ)
    → length p + length xs ≡ 64
    → 0 < length xs
    → absorb (s, p) xs ≡ (transform s (p ++ xs), [])
absorb_block s p [] h k = absurd (omega arith)
absorb_block s p (x ∷ xs) h k = absorb_full s p x xs h

-- The uint32 index `i + 63` of the loop does not wrap.
abbrev pub Fits : List ℕ → Type 0
Fits input = length input + 64 ≤ 2 ^ 32

-- The loop stopped at `out`, having absorbed the input from `i` up to there.
pub record BlocksDone (s : Regs) (i : ℕ) (input : List ℕ) (out : Regs × ℕ) : Type 0 where
  pub reached : i ≤ out.1
  pub inside : out.1 ≤ length input
  pub remainder : length input < out.1 + 64
  pub aligned : out.1 % 64 ≡ i % 64
  pub absorbed : absorb (s, []) (drop i input) ≡ (out.0, drop out.1 input)

module _ (input : List ℕ) (fits : Fits input) where
  one_block :
      (s : Regs) (i : ℕ)
      → i + 63 < length input
      → absorb (s, []) (drop i input)
        ≡ absorb (transform s (take 64 (drop i input)), []) (drop (i + 64) input)
  one_block s i h =
      ap (absorb (s, [])) (split i)
      ∙ absorb-append (s, []) (take 64 (drop i input)) (drop (i + 64) input)
      ∙ ap (λ (v : Regs × List ℕ). absorb v (drop (i + 64) input)) whole
    where
      split : (i : ℕ) → drop i input ≡ take 64 (drop i input) ++ drop (i + 64) input
      split i = rw (← drop-drop i 64 (i + 64) input refl, take-append-drop 64 (drop i input)) refl

      long : length (take 64 (drop i input)) ≡ 64
      long = omega (arith, length-take 64 (drop i input), length-drop i input)

      whole : absorb (s, []) (take 64 (drop i input)) ≡ (transform s (take 64 (drop i input)), [])
      whole = absorb_block s [] (take 64 (drop i input)) (omega (arith, long)) (omega (arith, long))

  BlocksDone-step :
      (s : Regs) (i : ℕ) {out : Regs × ℕ}
      → i + 63 < length input
      → BlocksDone (transform s (take 64 (drop i input))) (i + 64) input out
      → BlocksDone s i input out
  BlocksDone-step s i h d = record {
    reached = omega arith;
    inside = d.inside;
    remainder = d.remainder;
    aligned = omega arith;
    absorbed = one_block s i h ∙ d.absorbed;
  }

  BlocksDone-stop :
      (s : Regs) (i : ℕ) → i ≤ length input → length input < i + 64 → BlocksDone s i input (s, i)
  BlocksDone-stop s i below short = record {
    reached = omega arith;
    inside = below;
    remainder = short;
    aligned = refl;
    absorbed = absorb_short s [] (drop i input) (omega (arith, length-drop i input));
  }

  pub transform_blocks-absorb :
      (fuel : ℕ) (s : Regs) (i : ℕ)
      → i ≤ length input
      → length input ≤ i + fuel
      → BlocksDone s i input (transform_blocks fuel s i input)
  unfolding transform_blocks
  transform_blocks-absorb zero s i below enough = BlocksDone-stop s i below (omega arith)
  transform_blocks-absorb (suc fuel) s i below enough =
      elim (Bool-cases (ltb (u32 (i + 63)) (length input))) [
        | inl more ↦
            let room : i + 63 < length input = ground arith in
            let next : u32 (i + 64) ≡ i + 64 = omega arith in
            rw (more, transform_blocks)
              (rw next (
                BlocksDone-step s i room (
                  transform_blocks-absorb fuel (transform s (take 64 (drop i input))) (i + 64)
                    (omega arith) (omega arith))))
        | inr last ↦ rw (last, transform_blocks) (BlocksDone-stop s i below (ground arith))
      ]
