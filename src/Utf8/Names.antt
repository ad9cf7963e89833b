-- ===== src/Utf8/Names.antt =====
-- The name of a file in a URL, and prefixes.
use code_snippet.Common.{
  ℕ, ◌≡◌, ◌↔◌, refl, sym, ap, ◌∙◌, List, [], ◌∷◌, ◌++◌, true, false, arith, length, take, drop,
  text_eq_iff, take-append-drop, some, ◌+◌, ◌-◌, leb, ap₂, append-nil, length-append,
  take-append_self, drop_all,
}
use code_snippet.Utf8.{
  has_slash, get_file_name_from_url, start_with, shift_string, shift_string_right,
}

slash_inside : (dir name : List ℕ) → has_slash (dir ++ b'/' ∷ name) ≡ true
slash_inside [] name = refl
slash_inside (c ∷ dir) name = ground (arith, slash_inside dir name)

last_part :
    (dir name : List ℕ)
    → has_slash name ≡ false
    → get_file_name_from_url (dir ++ b'/' ∷ name) ≡ name
unfolding get_file_name_from_url
last_part [] name plain = rw plain refl
last_part (c ∷ dir) name plain = rw (slash_inside dir name) (last_part dir name plain)

alone : (name : List ℕ) → has_slash name ≡ false → get_file_name_from_url name ≡ name
unfolding get_file_name_from_url
alone [] plain = refl
alone (c ∷ name) plain = ground arith

-- The name after the last slash of a URL is found, whatever stands before that slash, slashes
-- included; a text without a slash is its own name.
pub get_file_name_from_url_lem :
    (dir name : List ℕ)
    → has_slash name ≡ false
    → (get_file_name_from_url (dir ++ b'/' ∷ name) ≡ name) × (get_file_name_from_url name ≡ name)
get_file_name_from_url_lem dir name plain = (last_part dir name plain, alone name plain)

prefix_found : (prefix rest : List ℕ) → take (length prefix) (prefix ++ rest) ≡ prefix
prefix_found [] rest = refl
prefix_found (c ∷ prefix) rest = ap (◌∷◌ c) (prefix_found prefix rest)

-- StartWith answers true exactly if the text is the prefix with something behind it.
pub start_with_iff :
    (str prefix : List ℕ)
    → (start_with str prefix ≡ true) ↔ ((rest : List ℕ) × (str ≡ prefix ++ rest))
unfolding start_with
start_with_iff str prefix = (
  λ h. (
    drop (length prefix) str,
    sym (take-append-drop (length prefix) str)
        ∙ ap (λ (xs : List ℕ). xs ++ drop (length prefix) str) ((text_eq_iff _ prefix).0 h),
  ),
  λ found.
      (text_eq_iff _ prefix).1 (ap (take (length prefix)) found.1 ∙ prefix_found prefix found.0),
)

-- ShiftStringRight cuts off as many characters at the end as it is told to.
shift_string_right-append : (xs ys : List ℕ) → shift_string_right (xs ++ ys) (length ys) ≡ some xs
unfolding shift_string_right shift_string
shift_string_right-append xs ys =
    rw fits (rw inside (ap some (ap₂ ◌++◌ front rest ∙ append-nil xs)))
  where
    whole : length (xs ++ ys) ≡ length xs + length ys
    whole = length-append xs ys

    fits : leb (length ys) (length (xs ++ ys)) ≡ true
    fits = ground (arith, whole)

    inside : leb (length (xs ++ ys) - length ys) (length (xs ++ ys)) ≡ true
    inside = ground (arith, whole)

    front : take (length (xs ++ ys) - length ys) (xs ++ ys) ≡ xs
    front = take-append_self xs ys (length (xs ++ ys) - length ys) (omega (arith, whole))

    rest : drop (length (xs ++ ys) - length ys + length ys) (xs ++ ys) ≡ []
    rest = drop_all (length (xs ++ ys) - length ys + length ys) (xs ++ ys) (omega (arith, whole))
