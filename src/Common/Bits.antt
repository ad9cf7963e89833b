-- ===== src/Common/Bits.antt =====
-- `&` with a mask of low bits and `|` of disjoint fields, as arithmetic, at every width. The
-- native operations stand for a recursion on binary digits; the fuel of that recursion is dropped
-- first, then every law is an induction on the width.
use Prim.Native.Nat.{min, max, digits, bit_and, bit_or, bit_and-bitwise, bit_or-bitwise}
use native.Mathlib.Nat.{pow-suc, one-le-pow}
use native.Mathlib.Nat.{le_refl, mod-eq-sub-mul-div, div-div-eq-div-mul, mul-div-le}
use Prim.Native.Nat.{ℕ, zero, suc, ◌+◌, ◌-◌, ◌*◌, ◌/◌, ◌%◌, ◌^◌, ◌≤◌, ◌<◌}
use mathlib.Core.Bool.{Bool, true, ◌&&◌}
use mathlib.Core.Path.{◌≡◌, refl, ap, ◌∙◌}
use native.Mathlib.Omega.{arith}

module _ (at_zero : ℕ → ℕ) (digit : ℕ → ℕ → ℕ) where
  enough_fuel :
      (n m a b : ℕ) → a ≤ n → a ≤ m → digits at_zero digit n a b ≡ digits at_zero digit m a b
  enough_fuel zero zero a b p q = refl
  enough_fuel (suc n) zero zero b p q = refl
  enough_fuel (suc n) zero (suc a) b p q = absurd (omega arith)
  enough_fuel zero (suc m) zero b p q = refl
  enough_fuel zero (suc m) (suc a) b p q = absurd (omega arith)
  enough_fuel (suc n) (suc m) zero b p q = refl
  enough_fuel (suc n) (suc m) (suc a) b p q =
      rw (enough_fuel n m (suc a / 2) (b / 2) (omega arith) (omega arith))

and_halves : (a b : ℕ) → bit_and a b ≡ bit_and (a / 2) (b / 2) * 2 + min (a % 2) (b % 2)
and_halves zero b = omega (arith, bit_and-bitwise 0 b, bit_and-bitwise 0 (b / 2))
and_halves (suc a) b = omega (
  arith,
  bit_and-bitwise (suc a) b,
  bit_and-bitwise (suc a / 2) (b / 2),
  enough_fuel (λ y. 0) min a (suc a / 2) (suc a / 2) (b / 2) (omega arith) (omega arith),
)

or_halves : (a b : ℕ) → bit_or a b ≡ bit_or (a / 2) (b / 2) * 2 + max (a % 2) (b % 2)
or_halves zero b = omega (arith, bit_or-bitwise 0 b, bit_or-bitwise 0 (b / 2))
or_halves (suc a) b = omega (
  arith,
  bit_or-bitwise (suc a) b,
  bit_or-bitwise (suc a / 2) (b / 2),
  enough_fuel (λ y. y) max a (suc a / 2) (suc a / 2) (b / 2) (omega arith) (omega arith),
)

mod_halves : (p a : ℕ) → a % (2 * p) ≡ a / 2 % p * 2 + a % 2
mod_halves p a = omega (
  arith,
  mod-eq-sub-mul-div a (2 * p),
  mod-eq-sub-mul-div (a / 2) p,
  ap (λ (q : ℕ). p * q) (div-div-eq-div-mul a 2 p),
  mul-div-le (a / 2) p,
)

nothing_masked : (n a : ℕ) → a ≤ n → bit_and a 0 ≡ 0
nothing_masked n zero h = refl
nothing_masked zero (suc a) h = absurd (omega arith)
nothing_masked (suc n) (suc a) h =
    omega (arith, and_halves (suc a) 0, nothing_masked n (suc a / 2) (omega arith))

mask_halves : (p : ℕ) → 1 ≤ p → ((2 * p - 1) / 2 ≡ p - 1) × ((2 * p - 1) % 2 ≡ 1)
mask_halves p h = omega arith

-- The mask of `k` ones keeps the remainder by `2 ^ k`.
pub bit_and-mask : (k a : ℕ) → bit_and a (2 ^ k - 1) ≡ a % 2 ^ k
bit_and-mask zero a = omega (arith, nothing_masked a a (le_refl a))
bit_and-mask (suc k) a =
    let smaller : bit_and (a / 2) (2 ^ k - 1) ≡ a / 2 % 2 ^ k = bit_and-mask k (a / 2) in
    rw (pow-two k) (
      omega (
        arith,
        and_halves a (2 * 2 ^ k - 1),
        ap (bit_and (a / 2)) (mask_halves (2 ^ k) (one-le-pow k 2 (omega arith))).0,
        mask_halves (2 ^ k) (one-le-pow k 2 (omega arith)),
        mod_halves (2 ^ k) a,
        smaller,
      ))
  where
    pow-two : (k : ℕ) → 2 ^ suc k ≡ 2 * 2 ^ k
    pow-two k = omega (arith, pow-suc 2 k)

all_zero : (a : ℕ) → bit_or a 0 ≡ a
all_zero a = go a a (le_refl a)
  where
    go : (n a : ℕ) → a ≤ n → bit_or a 0 ≡ a
    go n zero h = refl
    go zero (suc a) h = absurd (omega arith)
    go (suc n) (suc a) h = omega (arith, or_halves (suc a) 0, go n (suc a / 2) (omega arith))

-- `(q << k) | r` is a sum when `r` fits into `k` bits.
pub bit_or-disjoint : (k q r : ℕ) → r < 2 ^ k → bit_or (q * 2 ^ k) r ≡ q * 2 ^ k + r
bit_or-disjoint zero q r h = rw (none_below, times_one) (omega (arith, all_zero q))
  where
    none_below : r ≡ 0
    none_below = omega arith

    times_one : q * 2 ^ 0 ≡ q
    times_one = omega arith
bit_or-disjoint (suc k) q r h = ground (
  arith,
  or_halves (q * 2 ^ suc k) r,
  shifted,
  bit_or-disjoint k q (r / 2) (omega (arith, pow-suc 2 k)),
)
  where
    shifted : q * 2 ^ suc k ≡ 2 * (q * 2 ^ k)
    shifted = omega (arith, ap (λ (t : ℕ). q * t) (pow-suc 2 k))

pub bit_or_comm : (a b : ℕ) → bit_or a b ≡ bit_or b a
bit_or_comm a b = go a a b (le_refl a)
  where
    go : (n a b : ℕ) → a ≤ n → bit_or a b ≡ bit_or b a
    go n zero b h = omega (arith, all_zero b, bit_or-bitwise 0 b)
    go zero (suc a) b h = absurd (omega arith)
    go (suc n) (suc a) b h =
        omega
          (arith, or_halves (suc a) b, or_halves b (suc a), go n (suc a / 2) (b / 2) (omega arith))

-- The same with the low field first.
pub bit_or-field : (k q r : ℕ) → r < 2 ^ k → bit_or r (q * 2 ^ k) ≡ q * 2 ^ k + r
bit_or-field k q r h = bit_or_comm r (q * 2 ^ k) ∙ bit_or-disjoint k q r h

-- The test of a predicate on 0, 1, …, up to and without the bound.
unfoldable pub passes_below : (ℕ → Bool) → ℕ → Bool
passes_below test zero = true
passes_below test (suc bound) = passes_below test bound && test bound

-- A predicate that passes this test holds of each number under the bound.
pub passes_below_lem :
    (test : ℕ → Bool) (bound k : ℕ) → k < bound → passes_below test bound ≡ true → test k ≡ true
unfolding passes_below
passes_below_lem test zero k small passed = absurd (omega arith)
passes_below_lem test (suc bound) k small passed = ground (arith, passes_below_lem test bound k)
