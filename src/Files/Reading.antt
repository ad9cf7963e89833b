-- ===== src/Files/Reading.antt =====
-- What ReadFile makes of a file's content.
use code_snippet.Common.{
  ℕ, zero, suc, ◌+◌, ◌<◌, ◌≡◌, refl, sym, ap, ◌∙◌, inl, inr, List, [], ◌∷◌, ◌++◌, true, false,
  Option, none, some, arith, ◌==◌, ==_iff, Bool-cases, length, append_assoc, append-nil, replicate,
  text_eq_iff,
}
use code_snippet.Files.{
  Files, is_file_exist, getline, unopened, reads, ended, open_file, behind_line, get_line, returns,
  running, read_rounds, rounds_for, returned, read_file, write_file, get_file_size,
}

-- A line, its newline and the rest are the content.
abbrev Split : List ℕ → List ℕ × Option (List ℕ) → Type 0
Split content (line, none) = line ≡ content
Split content (line, some rest) = (line ++ 10 ∷ rest ≡ content) × (length rest < length content)

getline-Split : (content : List ℕ) → Split content (getline content)
unfolding getline
getline-Split [] = refl
getline-Split (c ∷ cs) = elim (Bool-cases (c == 10)) [
  | inl end ↦ rw end (ap (λ (d : ℕ). d ∷ cs) (sym ((==_iff c 10).0 end)), omega arith)
  | inr more ↦ rw more (longer (getline cs).0 (getline cs).1 (getline-Split cs))
]
  where
    longer :
        (line : List ℕ) (rest : Option (List ℕ))
        → Split cs (line, rest)
        → Split (c ∷ cs) (c ∷ line, rest)
    longer line none h = ap (◌∷◌ c) h
    longer line (some rest) h = (ap (◌∷◌ c) h.0, omega (arith, h.1))

read_rounds-ended :
    (fuel : ℕ) (line text : List ℕ) → read_rounds fuel ended line text ≡ returns text
unfolding read_rounds
read_rounds-ended zero line text = refl
read_rounds-ended (suc fuel) line text = refl

-- A line and the rest of the content, with what the loop writes.
line_and_rest :
    (text line more content : List ℕ)
    → line ++ 10 ∷ more ≡ content
    → (text ++ (line ++ 10 ∷ [])) ++ (more ++ 10 ∷ []) ≡ text ++ (content ++ 10 ∷ [])
line_and_rest text line more content split =
    append_assoc text (line ++ 10 ∷ []) (more ++ 10 ∷ [])
    ∙ ap (◌++◌ text) (
        append_assoc line (10 ∷ []) (more ++ 10 ∷ [])
        ∙ sym (append_assoc line (10 ∷ more) (10 ∷ []))
        ∙ ap (λ (l : List ℕ). l ++ 10 ∷ []) split)

read_rounds-reads :
    (fuel : ℕ) (content line text : List ℕ)
    → length content < fuel
    → read_rounds fuel (reads content) line text ≡ returns (text ++ (content ++ 10 ∷ []))
unfolding read_rounds get_line
read_rounds-reads zero content line text h = absurd (omega arith)
read_rounds-reads (suc fuel) content line text h =
    by_rest (getline content).0 (getline content).1 (getline-Split content)
      (λ rest line' text' shorter. read_rounds-reads fuel rest line' text' (omega arith))
  where
    by_rest :
        (first : List ℕ) (rest : Option (List ℕ))
        → Split content (first, rest)
        → ((more line' text' : List ℕ)
            → length more < length content
            → read_rounds fuel (reads more) line' text' ≡ returns (text' ++ (more ++ 10 ∷ [])))
        → read_rounds fuel (behind_line rest) first (text ++ (first ++ 10 ∷ []))
          ≡ returns (text ++ (content ++ 10 ∷ []))
    by_rest first none split ih =
        read_rounds-ended fuel first (text ++ (first ++ 10 ∷ []))
        ∙ ap (λ (l : List ℕ). returns (text ++ (l ++ 10 ∷ []))) split
    by_rest first (some more) split ih =
        ih more first (text ++ (first ++ 10 ∷ [])) split.1
        ∙ ap returns (line_and_rest text first more content split.0)

-- ReadFile ends on a file that can be opened, after at most one round of its loop for each byte and one
-- more: it returns the content with one newline more, whatever the content ends with.
pub read_rounds-some :
    (files : Files) (path content : List ℕ) (fuel : ℕ)
    → files path ≡ some content
    → length content < fuel
    → read_rounds fuel (open_file files path) [] [] ≡ returns (content ++ 10 ∷ [])
read_rounds-some files path content fuel found enough =
    rw (found, open_file) (read_rounds-reads fuel content [] [] enough)

read_rounds-unopened :
    (fuel : ℕ) (text : List ℕ)
    → read_rounds fuel unopened [] text ≡ running (text ++ replicate fuel 10)
unfolding read_rounds get_line
read_rounds-unopened zero text = ap running (sym (append-nil text))
read_rounds-unopened (suc fuel) text =
    read_rounds-unopened fuel (text ++ 10 ∷ [])
    ∙ ap running (append_assoc text (10 ∷ []) (replicate fuel 10))

-- On a file that cannot be opened ReadFile never returns: after any number of rounds it is still in its
-- loop, and has written one newline in each of them.
pub read_rounds-none :
    (files : Files) (path : List ℕ) (fuel : ℕ)
    → files path ≡ none
    → read_rounds fuel (open_file files path) [] [] ≡ running (replicate fuel 10)
read_rounds-none files path fuel missing = rw (missing, open_file) (read_rounds-unopened fuel [])

module _ (files : Files) (path content : List ℕ) (found : files path ≡ some content) where
  pub is_file_exist-some : is_file_exist files path ≡ true
  unfolding is_file_exist
  is_file_exist-some = rw (found, is_file_exist) refl

  pub read_file-some : read_file files path ≡ some (content ++ 10 ∷ [])
  unfolding read_file
  read_file-some = ap returned (
      ap (λ (f : Option (List ℕ)). read_rounds (rounds_for f) (open_file files path) [] []) found
      ∙ read_rounds-some files path content (length content + 1) found (omega arith))

  pub get_file_size-some : get_file_size files path ≡ some (length content)
  unfolding get_file_size
  get_file_size-some = rw (found, get_file_size) refl

pub is_file_exist-none :
    (files : Files) (path : List ℕ) → files path ≡ none → is_file_exist files path ≡ false
unfolding is_file_exist
is_file_exist-none files path missing = rw (missing, is_file_exist) refl

-- What was written is there, if the file could be opened.
pub write_file-same :
    (files : Files) (path content : List ℕ)
    → (write_file true files path content).0 path ≡ some content
unfolding write_file
write_file-same files path content = rw ((text_eq_iff path path).1 refl) refl
