-- ===== src/Proc.antt =====
-- ffos/ota/src/platform/SystemProperty.cpp: the readers of /proc, over the files. `size_t` has 32 bits, as
-- the `unsigned int` that a position is kept in. `none` is the exception of `substr`.
pub mod Values
pub mod Monitor
pub mod Alive
mod Tests
use code_snippet.Common.{
  ℕ, zero, suc, ◌+◌, List, [], ◌∷◌, ◌++◌, Bool, true, false, Option, none, some, ◌>>=◌, ltb, leb,
  ◌==◌, if◌then◌else◌, length, drop,
}
use code_snippet.Utf8.{start_with}
use code_snippet.Files.{Files, getline}

-- What the calls of `getline` give until one fails.
unfoldable pub lines : List ℕ → List (List ℕ)
lines [] = []
lines (c ∷ cs) =
    let rest = lines cs in
    if c == 10 then [] ∷ rest else elim rest [ [] ↦ (c ∷ []) ∷ [] | l ∷ ls ↦ (c ∷ l) ∷ ls ]

-- std::string::find
unfoldable pub find : List ℕ → List ℕ → Option ℕ
unfolding start_with
find prefix [] = if start_with [] prefix then some 0 else none
find prefix (c ∷ cs) =
    let later = find prefix cs in
    if start_with (c ∷ cs) prefix
    then some 0
    else elim later [ none ↦ none | some n ↦ some (suc n) ]

-- GetValueFromProcFile(path, defaultValue)
unfoldable pub get_first_line : Files → List ℕ → List ℕ → List ℕ
unfolding getline
get_first_line files path default = elim (files path) [
  | none ↦ default
  | some content ↦ if ltb 0 (length (getline content).0) then (getline content).0 else default
]

-- The loop over the lines, with the value so far.
unfoldable pub last_value : List ℕ → ℕ → List ℕ → List (List ℕ) → Option (List ℕ)
unfolding find
last_value prefix prefix_length value [] = some value
last_value prefix prefix_length value (l ∷ ls) = elim (find prefix l) [
  | none ↦ last_value prefix prefix_length value ls
  | some pos ↦
      if leb (pos + prefix_length) (length l)
      then last_value prefix prefix_length (drop (pos + prefix_length) l) ls
      else none
]

abbrev pub or_default : List ℕ → List ℕ → List ℕ
or_default default value = if ltb 0 (length value) then value else default

-- GetValueFromProcFile(path, prefix, prefixLength, defaultValue)
unfoldable pub get_value : Files → List ℕ → List ℕ → ℕ → List ℕ → Option (List ℕ)
unfolding lines last_value
get_value files path prefix prefix_length default = elim (files path) [
  | none ↦ some default
  | some content ↦ do
    value ← last_value prefix prefix_length [] (lines content)
    some (or_default default value)
]
