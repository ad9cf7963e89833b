-- ===== src/Getip/Octets.antt =====
-- c++/getip.cpp: the octets of an address, and their texts.
use code_snippet.Common.{
  ℕ, ◌+◌, ◌*◌, ◌^◌, ◌%◌, ◌/◌, ◌<◌, ◌≡◌, List, [], ◌∷◌, ◌++◌, arith, length, codes, ◌>>>◌, Bool,
  true, false, not, ◌&&◌, Option, none, some, ◌==◌, ==_iff, refl,
}
use code_snippet.Common.Bits.{bit_and-mask, passes_below, passes_below_lem}
use code_snippet.Common.Decimal.{decimal, atoi}
use code_snippet.Getip.{octet, in_width, print_number}

octet_lem : (addr shift : ℕ) → octet addr shift ≡ addr / 2 ^ shift % 256
octet_lem addr shift = bit_and-mask 8 (addr >>> shift)

octets_recombine :
    (addr : ℕ)
    → addr < 2 ^ 32
    → octet addr 24 * 2 ^ 24 + octet addr 16 * 2 ^ 16 + octet addr 8 * 2 ^ 8 + octet addr 0 ≡ addr
octets_recombine addr small =
    omega (arith, octet_lem addr 24, octet_lem addr 16, octet_lem addr 8, octet_lem addr 0)

-- A text of three characters that `atoi` reads as a number below 256.
pub record Reads (text : List ℕ) (n : ℕ) : Type 0 where
  pub three : length text ≡ 3
  pub value : atoi text ≡ some (false, n)
  pub small : n < 256

-- A line that has an address as four numbers behind the name.
pub record Shows (name line : List ℕ) (addr : ℕ) : Type 0 where
  pub first : List ℕ
  pub second : List ℕ
  pub third : List ℕ
  pub fourth : List ℕ
  pub line_is :
      line
      ≡ name ++ codes " = " ++ first ++ b'.' ∷ second ++ b'.' ∷ third ++ b'.' ∷ fourth ++ 10 ∷ []
  pub a : ℕ
  pub b : ℕ
  pub c : ℕ
  pub d : ℕ
  pub reads_first : Reads first a
  pub reads_second : Reads second b
  pub reads_third : Reads third c
  pub reads_fourth : Reads fourth d
  pub recombined : a * 2 ^ 24 + b * 2 ^ 16 + c * 2 ^ 8 + d ≡ addr

abbrev reads_back : ℕ → Option (Bool × ℕ) → Bool
reads_back n none = false
reads_back n (some (negative, m)) = not negative && m == n

abbrev is_read : ℕ → Bool
is_read n = length (in_width n) == 3 && reads_back n (atoi (in_width n))

all_read : passes_below is_read 256 ≡ true
unfolding in_width atoi decimal passes_below
all_read = refl

reads_back_lem : (n : ℕ) (r : Option (Bool × ℕ)) → reads_back n r ≡ true → r ≡ some (false, n)
reads_back_lem n none h = absurd (cc h)
reads_back_lem n (some (true, m)) h = absurd (cc h)
reads_back_lem n (some (false, m)) h = λ i. some (false, (==_iff m n).0 h i)

in_width-Reads : (n : ℕ) → n < 256 → Reads (in_width n) n
in_width-Reads n small = record {
  three = (==_iff (length (in_width n)) 3).0 (ground (arith, passed));
  value = reads_back_lem n (atoi (in_width n)) (ground (arith, passed));
  small = small;
}
  where
    passed : is_read n ≡ true
    passed = passes_below_lem is_read 256 n small all_read

octet-small : (addr shift : ℕ) → octet addr shift < 256
octet-small addr shift = omega (arith, octet_lem addr shift)

-- The line for an IPv4 address below 2 ^ 32 has, behind its name, four texts of three characters with
-- points between them; `atoi` reads them as numbers below 256, and these are the bytes of the address
-- from the highest on.
pub print_number-Shows :
    (name : List ℕ) (addr : ℕ) → addr < 2 ^ 32 → Shows name (print_number name addr) addr
unfolding print_number
print_number-Shows name addr small = record {
  first = in_width (octet addr 24);
  second = in_width (octet addr 16);
  third = in_width (octet addr 8);
  fourth = in_width (octet addr 0);
  line_is = refl;
  a = octet addr 24;
  b = octet addr 16;
  c = octet addr 8;
  d = octet addr 0;
  reads_first = in_width-Reads (octet addr 24) (octet-small addr 24);
  reads_second = in_width-Reads (octet addr 16) (octet-small addr 16);
  reads_third = in_width-Reads (octet addr 8) (octet-small addr 8);
  reads_fourth = in_width-Reads (octet addr 0) (octet-small addr 0);
  recombined = octets_recombine addr small;
}
