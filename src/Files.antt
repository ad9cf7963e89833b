-- ===== src/Files.antt =====
-- ffos/ota/src/utils/FsUtils.cpp over a file system that is a function from paths to contents.
pub mod Reading
mod Tests
use code_snippet.Common.{
  ℕ, zero, suc, ◌+◌, List, [], ◌∷◌, ◌++◌, Bool, true, false, not, ◌&&◌, Option, none, some, ◌==◌,
  if◌then◌else◌, length, drop, get_or, text_eq,
}
use code_snippet.Utf8.{start_with}

abbrev pub Files : Type 0
Files = List ℕ → Option (List ℕ)

unfoldable pub is_file_exist : Files → List ℕ → Bool
is_file_exist files path = elim (files path) [ none ↦ false | some content ↦ true ]

-- `getline`: the line, and what follows its newline; nothing follows where the end was met.
unfoldable pub getline : List ℕ → List ℕ × Option (List ℕ)
getline [] = ([], none)
getline (c ∷ cs) =
    let (line, rest) = getline cs in if c == 10 then ([], some cs) else (c ∷ line, rest)

-- The stream of ReadFile: one that could not be opened fails without being at its end.
pub data Stream : Type 0 where
  unopened : Stream
  reads : List ℕ → Stream
  ended : Stream

abbrev pub open_file : Files → List ℕ → Stream
open_file files path = elim (files path) [ none ↦ unopened | some content ↦ reads content ]

-- `in.eof()`
abbrev pub eof : Stream → Bool
eof unopened = false
eof (reads content) = false
eof ended = true

abbrev pub behind_line : Option (List ℕ) → Stream
behind_line none = ended
behind_line (some more) = reads more

-- `getline(in, line)`: the line, and the stream afterwards. A stream that fails leaves the line alone.
unfoldable pub get_line : List ℕ → Stream → List ℕ × Stream
unfolding getline
get_line line unopened = (line, unopened)
get_line line (reads content) = let (first, rest) = getline content in (first, behind_line rest)
get_line line ended = (line, ended)

-- How far the loop of ReadFile is: `return ss.str()`, or still in it, with the text so far.
pub data ReadRun : Type 0 where
  returns : List ℕ → ReadRun
  running : List ℕ → ReadRun

-- `while (!in.eof())`, for a number of rounds.
unfoldable pub read_rounds : ℕ → Stream → List ℕ → List ℕ → ReadRun
unfolding get_line
read_rounds zero in_ line text = if eof in_ then returns text else running text
read_rounds (suc fuel) in_ line text =
    let (line', in') = get_line line in_ in
    let rest = read_rounds fuel in' line' (text ++ (line' ++ 10 ∷ [])) in
    if eof in_ then returns text else rest

-- The rounds that ReadFile takes at most for a file that can be opened.
abbrev pub rounds_for : Option (List ℕ) → ℕ
rounds_for none = 0
rounds_for (some content) = length content + 1

abbrev pub returned : ReadRun → Option (List ℕ)
returned (returns text) = some text
returned (running text) = none

-- ReadFile, where it returns.
unfoldable pub read_file : Files → List ℕ → Option (List ℕ)
unfolding read_rounds
read_file files path = returned (read_rounds (rounds_for (files path)) (open_file files path) [] [])

-- WriteFile, where the file can be opened or not.
unfoldable pub write_file : Bool → Files → List ℕ → List ℕ → Files × Bool
write_file opened files path content =
    if opened
    then ((λ p. if text_eq p path then some content else files p), true)
    else (files, false)

-- DeleteFile, for whether `remove` succeeds, which the code does not ask.
unfoldable pub delete_file : Bool → Files → List ℕ → Files
delete_file removed files path = λ p. if text_eq p path && removed then none else files p

-- GetFileSize; the answer for a missing file is what the stack holds.
unfoldable pub get_file_size : Files → List ℕ → Option ℕ
get_file_size files path = elim (files path) [ none ↦ none | some content ↦ some (length content) ]

-- What the pattern `root*` of the shell matches, and all below it: no name that starts with a dot.
abbrev pub is_cleaned : List ℕ → List ℕ → Bool
is_cleaned root path = start_with path root && not (get_or (drop (length root) path) 0 b'.' == b'.')

-- CleanDir: `rm -r -f root*`, for which of the names that match `rm` could remove.
unfoldable pub clean_dir : (List ℕ → Bool) → Files → List ℕ → Files
clean_dir removed files root = λ p. if is_cleaned root p && removed p then none else files p

-- IsDirExist, for the answer of `opendir`, with the number of open directory streams: the stream is
-- never closed.
unfoldable pub is_dir_exist : Bool → ℕ → Bool × ℕ
is_dir_exist opens streams = if opens then (true, streams + 1) else (false, streams)

-- MkDir, for the answers of `opendir` and `mkdir`.
unfoldable pub mk_dir : Bool → Bool → ℕ → Bool × ℕ
unfolding is_dir_exist
mk_dir opens makes streams =
    let (exists, streams') = is_dir_exist opens streams in
    if exists then (true, streams') else (makes, streams')
