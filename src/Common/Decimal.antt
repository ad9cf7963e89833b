-- ===== src/Common/Decimal.antt =====
-- Decimal text: what `stringstream << n` writes and what `atoi` reads.
use Prim.Native.Nat.{ℕ, zero, suc, ◌+◌, ◌-◌, ◌*◌, ◌/◌, ◌%◌, ◌^◌, ◌≤◌, ◌<◌}
use mathlib.Core.Path.{◌≡◌, refl, ap, ◌∙◌}
use mathlib.Core.Logic.{inl, inr}
use mathlib.Core.Bool.{Bool, true, false, ◌&&◌, ◌||◌}
use mathlib.Core.Option.{Option, none, some}
use mathlib.Core.List.{List, [], ◌∷◌}
use native.Mathlib.Omega.{arith}
use code_snippet.Common.Tests.{
  ltb, leb, ◌==◌, if◌then◌else◌, ltb→lt, ltb_false→le, le→ltb_false, Bool-cases,
}

abbrev pub is_digit : ℕ → Bool
is_digit c = leb b'0' c && leb c b'9'

abbrev pub is_space : ℕ → Bool
is_space c = c == b' ' || (leb 9 c && leb c 13)

unfoldable pub digits : ℕ → ℕ → List ℕ → List ℕ
digits zero n acc = acc
digits (suc fuel) n acc =
    let here = (b'0' + n % 10) ∷ acc in
    let more = digits fuel (n / 10) here in if ltb n 10 then here else more

-- The decimal text of a size.
unfoldable pub decimal : ℕ → List ℕ
unfolding digits
decimal n = digits (n + 1) n []

unfoldable pub scan : ℕ → List ℕ → ℕ
scan n [] = n
scan n (c ∷ cs) = if is_digit c then scan (n * 10 + (c - b'0')) cs else n

unfoldable pub skip_spaces : List ℕ → List ℕ
skip_spaces [] = []
skip_spaces (c ∷ cs) = if is_space c then skip_spaces cs else c ∷ cs

-- The magnitude is in the range of int.
abbrev pub in_int : Bool → ℕ → Option (Bool × ℕ)
in_int negative n =
    if ltb (if negative then 2 ^ 31 else 2 ^ 31 - 1) n then none else some (negative, n)

unfoldable pub signed_number : List ℕ → Option (Bool × ℕ)
unfolding scan
signed_number [] = some (false, 0)
signed_number (c ∷ cs) =
    if c == b'-'
    then in_int true (scan 0 cs)
    else if c == b'+'
    then in_int false (scan 0 cs)
    else in_int false (scan 0 (c ∷ cs))

-- Sign and magnitude of the number at the front, 0 where there is none. `none` is a number that
-- does not fit into an int, for which C defines no result.
unfoldable pub atoi : List ℕ → Option (Bool × ℕ)
unfolding skip_spaces signed_number
atoi text = signed_number (skip_spaces text)

-- Every character satisfies the test.
abbrev pub Digits : List ℕ → Type 0
Digits [] = Unit {0}
Digits (c ∷ cs) = (is_digit c ≡ true) × Digits cs

digits-Digits : (fuel n : ℕ) (acc : List ℕ) → Digits acc → Digits (digits fuel n acc)
unfolding digits
digits-Digits zero n acc h = h
digits-Digits (suc fuel) n acc h =
    ground (arith, digits-Digits fuel (n / 10) ((b'0' + n % 10) ∷ acc))

scan_digit : (a d : ℕ) (cs : List ℕ) → d < 10 → scan a ((b'0' + d) ∷ cs) ≡ scan (a * 10 + d) cs
unfolding scan
scan_digit a d cs h = rw digit (ap (λ (k : ℕ). scan (a * 10 + k) cs) (omega arith))
  where
    digit : is_digit (b'0' + d) ≡ true
    digit = ground arith

scan-digits : (fuel n : ℕ) (acc : List ℕ) → n < fuel → scan 0 (digits fuel n acc) ≡ scan n acc
unfolding digits scan
scan-digits zero n acc h = absurd (omega arith)
scan-digits (suc fuel) n acc h = elim (Bool-cases (ltb n 10)) [
  | inl last ↦ rw last (
      scan_digit 0 (n % 10) acc (omega arith)
      ∙ ap (λ (k : ℕ). scan k acc) (below_ten (ltb→lt n 10 last)))
  | inr more ↦ rw more (
      scan-digits fuel (n / 10) ((b'0' + n % 10) ∷ acc) (tenth (ltb_false→le n 10 more))
      ∙ scan_digit (n / 10) (n % 10) acc (omega arith)
      ∙ ap (λ (k : ℕ). scan k acc) whole)
]
  where
    below_ten : n < 10 → 0 * 10 + n % 10 ≡ n
    below_ten h = omega arith

    tenth : 10 ≤ n → n / 10 < fuel
    tenth big = omega arith

    whole : n / 10 * 10 + n % 10 ≡ n
    whole = omega arith

-- The text of a number has no other characters than digits.
pub decimal-Digits : (n : ℕ) → Digits (decimal n)
unfolding decimal
decimal-Digits n = digits-Digits (n + 1) n [] tt

scan-decimal : (n : ℕ) → scan 0 (decimal n) ≡ n
unfolding decimal scan
scan-decimal n = scan-digits (n + 1) n [] (omega arith)

digit_cases :
    (c : ℕ)
    → is_digit c ≡ true
    → (is_space c ≡ false) × ((c == b'-') ≡ false) × ((c == b'+') ≡ false)
digit_cases c h = ground arith

-- Digits have no space or sign before them.
atoi-Digits : (cs : List ℕ) → Digits cs → atoi cs ≡ in_int false (scan 0 cs)
unfolding atoi
atoi-Digits [] h = refl
atoi-Digits (c ∷ cs) h =
    rw (digit_cases c h.0).0 (rw ((digit_cases c h.0).1, (digit_cases c h.0).2))

-- Reading the text of a number gives the number, if it fits into an int.
pub atoi-decimal : (n : ℕ) → n < 2 ^ 31 → atoi (decimal n) ≡ some (false, n)
unfolding atoi
atoi-decimal n h =
    atoi-Digits (decimal n) (decimal-Digits n) ∙ ap (in_int false) (scan-decimal n) ∙ fits
  where
    fits : in_int false n ≡ some (false, n)
    fits = rw (le→ltb_false (2 ^ 31 - 1) n (omega arith))
