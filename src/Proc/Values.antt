-- ===== src/Proc/Values.antt =====
-- Which line of a file the value is taken from.
use code_snippet.Common.{
  ℕ, ◌+◌, ◌≤◌, ◌≡◌, ◌⊎◌, refl, inl, inr, List, [], ◌∷◌, ◌++◌, none, some, le→leb, length, drop,
}
use code_snippet.Files.{Files}
use code_snippet.Proc.{lines, find, last_value, or_default, get_value}

module _ (prefix : List ℕ) (n : ℕ) where
  -- A line without the prefix, or with enough behind it.
  abbrev pub IsReadable : List ℕ → Type 0
  IsReadable l =
      (find prefix l ≡ none) ⊎ ((pos : ℕ) × (find prefix l ≡ some pos) × (pos + n ≤ length l))

  abbrev pub AllReadable : List (List ℕ) → Type 0
  AllReadable [] = Unit {0}
  AllReadable (l ∷ ls) = IsReadable l × AllReadable ls

  abbrev pub NoneFound : List (List ℕ) → Type 0
  NoneFound [] = Unit {0}
  NoneFound (l ∷ ls) = (find prefix l ≡ none) × NoneFound ls

  last_value-NoneFound :
      (value : List ℕ) (ls : List (List ℕ))
      → NoneFound ls
      → last_value prefix n value ls ≡ some value
  unfolding last_value
  last_value-NoneFound value [] h = refl
  last_value-NoneFound value (l ∷ ls) h = rw (h.0, last_value) (last_value-NoneFound value ls h.1)

  -- The last line with the prefix decides, whatever the lines before it gave.
  pub last_value-append :
      (value : List ℕ) (before : List (List ℕ)) (l : List ℕ) (after : List (List ℕ)) (pos : ℕ)
      → AllReadable before
      → find prefix l ≡ some pos
      → pos + n ≤ length l
      → NoneFound after
      → last_value prefix n value (before ++ l ∷ after) ≡ some (drop (pos + n) l)
  unfolding last_value
  last_value-append value [] l after pos readable found long none_after =
      rw (found, last_value)
        (rw (le→leb _ _ long) (last_value-NoneFound (drop (pos + n) l) after none_after))
  last_value-append value (b ∷ before) l after pos readable found long none_after =
      elim readable.0 [
        | inl no_ ↦
            rw (no_, last_value)
              (last_value-append value before l after pos readable.1 found long none_after)
        | inr (pos', there, enough) ↦
            rw (there, last_value)
              (rw (le→leb _ _ enough) (
                last_value-append (drop (pos' + n) b) before l after pos readable.1 found long
                  none_after))
      ]

  -- A file whose last line with the prefix has the value behind it: the answer is that value, or the default
  -- if it is empty.
  pub get_value-lines :
      (files : Files) (path default content : List ℕ) (before : List (List ℕ)) (l : List ℕ)
      (after : List (List ℕ)) (pos : ℕ)
      → files path ≡ some content
      → lines content ≡ before ++ l ∷ after
      → AllReadable before
      → find prefix l ≡ some pos
      → pos + n ≤ length l
      → NoneFound after
      → get_value files path prefix n default ≡ some (or_default default (drop (pos + n) l))
  unfolding get_value
  get_value-lines files path default content before l after pos there split readable found long
        none_after =
      rw (there, get_value)
        (rw (split, last_value-append [] before l after pos readable found long none_after) refl)
