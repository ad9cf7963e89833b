-- ===== src/Proc/Monitor.antt =====
-- ffos/ota/src/platform/ProcessMonitor.cpp: CheckCertainProcessAlive. What popen delivers, and whether
-- `kill(pid, 0)` finds the process, are arguments; the latter goes to the log and nowhere else.
use code_snippet.Common.{
  ℕ, zero, suc, List, [], ◌∷◌, ◌++◌, Bool, true, false, Option, none, some, leb, ◌==◌,
  if◌then◌else◌, length, take, codes,
}
use code_snippet.Common.Decimal.{atoi}
use code_snippet.Socket.Framing.{c_str}

pub data Alive : Type 0 where
  -- the result, and what the last line of the log says of the process: whether it exists, if anything
  answers : Bool → Option Bool → Alive
  -- sprintf writes past `queryCmd`
  overflows : Alive
  -- the exception of `info.at`
  throws : Alive
  -- a number that does not fit into an int is handed to `atoi`
  bad_number : Alive

abbrev pub query_command : List ℕ → List ℕ
query_command name = codes "b2g-ps | grep " ++ c_str name

-- The first line with its newline.
unfoldable pub through_newline : List ℕ → List ℕ
through_newline [] = []
through_newline (c ∷ cs) = let rest = through_newline cs in if c == 10 then c ∷ [] else c ∷ rest

-- What `strlen` and the functions on C strings see of the result of `fgets(queryResult, 512, ...)`.
unfoldable pub fgets : List ℕ → List ℕ
unfolding through_newline
fgets output = c_str (take 511 (through_newline output))

abbrev pub cons_token : List ℕ → List (List ℕ) → List (List ℕ)
cons_token [] ts = ts
cons_token (c ∷ cs) ts = (c ∷ cs) ∷ ts

-- The characters up to the first blank, and the words behind it.
unfoldable pub split_tokens : List ℕ → List ℕ × List (List ℕ)
split_tokens [] = ([], [])
split_tokens (c ∷ cs) =
    let (t, ts) = split_tokens cs in if c == 32 then ([], cons_token t ts) else (c ∷ t, ts)

-- The loop of `strtok(..., " ")`.
unfoldable pub tokens : List ℕ → List (List ℕ)
unfolding split_tokens
tokens text = let (t, ts) = split_tokens text in cons_token t ts

-- `info.at(n)`
abbrev pub at : List (List ℕ) → ℕ → Option (List ℕ)
at [] n = none
at (t ∷ ts) zero = some t
at (t ∷ ts) (suc n) = at ts n

-- B2G_CASTAPPCONTAINER_INDEX
abbrev pub pid_index : ℕ
pid_index = 3

-- From the number on; `kill` is asked for its sign and its size.
abbrev pub pid_answer : (Bool → ℕ → Bool) → Option (Bool × ℕ) → Alive
pid_answer killed none = bad_number
pid_answer killed (some (negative, pid)) =
    if pid == 0 then answers false none else answers true (some (killed negative pid))

abbrev pub by_words : (Bool → ℕ → Bool) → List (List ℕ) → Alive
by_words killed info = elim (at info pid_index) [
  | none ↦ throws
  | some word ↦ pid_answer killed (atoi word)
]

-- From the result of fgets on; the last character is cut off.
abbrev pub by_result : (Bool → ℕ → Bool) → List ℕ → Alive
by_result killed [] = answers false (some false)
by_result killed (c ∷ cs) = by_words killed (tokens (take (length cs) (c ∷ cs)))

-- CheckCertainProcessAlive
unfoldable pub check_alive : List ℕ → Option (List ℕ) → (Bool → ℕ → Bool) → Alive
unfolding fgets tokens
check_alive name output killed =
    if leb (length (query_command name)) 127
    then elim output [ none ↦ answers false none | some text ↦ by_result killed (fgets text) ]
    else overflows
