-- ===== src/Files/Tests.antt =====
-- A file without a newline at its end, and one that is missing.
use code_snippet.Common.{
  ◌≡◌, refl, [], ◌∷◌, ◌++◌, none, some, if◌then◌else◌, codes, text_eq, replicate, arith,
}
use code_snippet.Files.{Files, open_file, returns, running, read_rounds}
use code_snippet.Files.Reading.{read_rounds-some, read_rounds-none}

abbrev one_file : Files
one_file path = if text_eq path (codes "a") then some (codes "xyz") else none

read_rounds-some_example :
    read_rounds 4 (open_file one_file (codes "a")) [] [] ≡ returns (codes "xyz" ++ 10 ∷ [])
read_rounds-some_example = read_rounds-some one_file (codes "a") (codes "xyz") 4 refl (omega arith)

read_rounds-none_example :
    read_rounds 1000 (open_file one_file (codes "b")) [] [] ≡ running (replicate 1000 10)
read_rounds-none_example = read_rounds-none one_file (codes "b") 1000 refl
