-- ===== src/Proc/Alive.antt =====
-- ffos/ota/src/platform/ProcessMonitor.cpp: a line of words.
use code_snippet.Common.{
  ℕ, ◌≤◌, ◌<◌, ◌^◌, ◌≡◌, ◌==◌, if◌then◌else◌, false, none, ◌≢◌, refl, ap, ◌∙◌, List, [], ◌∷◌, ◌++◌,
  Bool, true, some, arith, leb, length, take, take_all, take-append_self, length-append,
}
use code_snippet.Common.Decimal.{decimal, atoi-decimal}
use code_snippet.Socket.Framing.{c_str}
use code_snippet.Socket.Nul.{NulFree, c_str-NulFree}
use code_snippet.Proc.Monitor.{
  query_command, through_newline, fgets, cons_token, split_tokens, tokens, by_words, by_result,
  pid_answer, answers, throws, check_alive,
}

-- A word of a line: some characters, none of them a blank, a newline or NUL.
abbrev IsSolid : List ℕ → Type 0
IsSolid [] = Unit {0}
IsSolid (c ∷ cs) = (c ≢ 32) × (c ≢ 10) × (c ≢ 0) × IsSolid cs

abbrev pub AreWords : List (List ℕ) → Type 0
AreWords [] = Unit {0}
AreWords (w ∷ ws) = (w ≢ []) × IsSolid w × AreWords ws

-- The words with a blank between them.
abbrev pub line_of : List (List ℕ) → List ℕ
line_of [] = []
line_of (w ∷ []) = w
line_of (w ∷ v ∷ ws) = w ++ 32 ∷ line_of (v ∷ ws)

split_word : (w : List ℕ) → IsSolid w → split_tokens w ≡ (w, [])
unfolding split_tokens
split_word [] h = refl
split_word (c ∷ cs) h = ground (arith, split_word cs h.3)

split_before_blank :
    (w rest : List ℕ) → IsSolid w → split_tokens (w ++ 32 ∷ rest) ≡ (w, tokens rest)
unfolding split_tokens tokens
split_before_blank [] rest h = refl
split_before_blank (c ∷ cs) rest h = ground (arith, split_before_blank cs rest h.3)

cons_token-word : (w : List ℕ) (ts : List (List ℕ)) → w ≢ [] → cons_token w ts ≡ w ∷ ts
cons_token-word [] ts h = absurd (h refl)
cons_token-word (c ∷ cs) ts h = refl

tokens-line_of : (ws : List (List ℕ)) → AreWords ws → tokens (line_of ws) ≡ ws
unfolding tokens split_tokens
tokens-line_of [] h = refl
tokens-line_of (w ∷ []) h =
    ap (λ (p : List ℕ × List (List ℕ)). cons_token p.0 p.1) (split_word w h.1)
    ∙ cons_token-word w [] h.0
tokens-line_of (w ∷ v ∷ ws) h =
    ap (λ (p : List ℕ × List (List ℕ)). cons_token p.0 p.1)
      (split_before_blank w (line_of (v ∷ ws)) h.1)
    ∙ cons_token-word w (tokens (line_of (v ∷ ws))) h.0
    ∙ ap (◌∷◌ w) (tokens-line_of (v ∷ ws) h.2)

-- One line: no newline, no NUL.
abbrev IsLine : List ℕ → Type 0
IsLine [] = Unit {0}
IsLine (c ∷ cs) = (c ≢ 10) × (c ≢ 0) × IsLine cs

solid-IsLine : (w rest : List ℕ) → IsSolid w → IsLine rest → IsLine (w ++ rest)
solid-IsLine [] rest h h' = h'
solid-IsLine (c ∷ cs) rest h h' = (h.1, h.2, solid-IsLine cs rest h.3 h')

alone-IsLine : (w : List ℕ) → IsSolid w → IsLine w
alone-IsLine [] h = tt
alone-IsLine (c ∷ cs) h = (h.1, h.2, alone-IsLine cs h.3)

line_of-IsLine : (ws : List (List ℕ)) → AreWords ws → IsLine (line_of ws)
line_of-IsLine [] h = tt
line_of-IsLine (w ∷ []) h = alone-IsLine w h.1
line_of-IsLine (w ∷ v ∷ ws) h =
    solid-IsLine w (32 ∷ line_of (v ∷ ws)) h.1
      (omega arith, omega arith, line_of-IsLine (v ∷ ws) h.2)

through_newline-line :
    (l more : List ℕ) → IsLine l → through_newline (l ++ 10 ∷ more) ≡ l ++ 10 ∷ []
unfolding through_newline
through_newline-line [] more h = refl
through_newline-line (c ∷ cs) more h = ground (arith, through_newline-line cs more h.2)

line-NulFree : (l : List ℕ) → IsLine l → NulFree (l ++ 10 ∷ [])
line-NulFree [] h = (omega arith, tt)
line-NulFree (c ∷ cs) h = (h.1, line-NulFree cs h.2)

fgets-line : (l more : List ℕ) → IsLine l → length l ≤ 510 → fgets (l ++ 10 ∷ more) ≡ l ++ 10 ∷ []
unfolding fgets
fgets-line l more h short =
    ap (λ (t : List ℕ). c_str (take 511 t)) (through_newline-line l more h)
    ∙ ap c_str (take_all 511 (l ++ 10 ∷ []) (omega (arith, length-append l (10 ∷ []))))
    ∙ c_str-NulFree (l ++ 10 ∷ []) (line-NulFree l h)

by_result-line :
    (killed : Bool → ℕ → Bool) (l : List ℕ)
    → by_result killed (l ++ 10 ∷ []) ≡ by_words killed (tokens l)
by_result-line killed [] = refl
by_result-line killed (c ∷ cs) =
    ap (λ (t : List ℕ). by_words killed (tokens t))
      (take-append_self (c ∷ cs) (10 ∷ []) (length (cs ++ 10 ∷ []))
        (omega (arith, length-append cs (10 ∷ []))))

check_alive-line_of :
    (name more : List ℕ) (ws : List (List ℕ)) (killed : Bool → ℕ → Bool)
    → length (query_command name) ≤ 127
    → AreWords ws
    → length (line_of ws) ≤ 510
    → check_alive name (some (line_of ws ++ 10 ∷ more)) killed ≡ by_words killed ws
unfolding check_alive
check_alive-line_of name more ws killed fits words short = rw fits_test (
    ap (by_result killed) (fgets-line (line_of ws) more (line_of-IsLine ws words) short)
    ∙ by_result-line killed (line_of ws)
    ∙ ap (by_words killed) (tokens-line_of ws words))
  where
    fits_test : leb (length (query_command name)) 127 ≡ true
    fits_test = ground (arith, fits)

-- The command fits into its array, and its first line of output consists of at most 510 characters:
-- words, non-empty and without a blank, a newline or a NUL, with one blank between two of them, of which
-- the fourth is the decimal text of a number below 2^31. Then the answer is true exactly if that number is not 0, whether `kill` finds the process or
-- not; what `kill` says of it goes to the log.
pub check_alive-words :
    (name more user parent other : List ℕ) (pid : ℕ) (ws : List (List ℕ)) (killed : Bool → ℕ → Bool)
    → length (query_command name) ≤ 127
    → AreWords (user ∷ parent ∷ other ∷ decimal pid ∷ ws)
    → length (line_of (user ∷ parent ∷ other ∷ decimal pid ∷ ws)) ≤ 510
    → pid < 2 ^ 31
    → check_alive name
        (some (line_of (user ∷ parent ∷ other ∷ decimal pid ∷ ws) ++ 10 ∷ more))
        killed
      ≡ (if pid == 0 then answers false none else answers true (some (killed false pid)))
check_alive-words name more user parent other pid ws killed fits words short small =
    check_alive-line_of name more (user ∷ parent ∷ other ∷ decimal pid ∷ ws) killed fits words short
    ∙ ap (pid_answer killed) (atoi-decimal pid small)

-- A line of fewer than four words ends in an exception.
pub check_alive-few :
    (name more : List ℕ) (ws : List (List ℕ)) (killed : Bool → ℕ → Bool)
    → length (query_command name) ≤ 127
    → AreWords ws
    → length (line_of ws) ≤ 510
    → length ws < 4
    → check_alive name (some (line_of ws ++ 10 ∷ more)) killed ≡ throws
check_alive-few name more ws killed fits words short few =
    check_alive-line_of name more ws killed fits words short ∙ none_there ws few
  where
    none_there : (vs : List (List ℕ)) → length vs < 4 → by_words killed vs ≡ throws
    none_there [] h = refl
    none_there (a ∷ []) h = refl
    none_there (a ∷ b ∷ []) h = refl
    none_there (a ∷ b ∷ c ∷ []) h = refl
    none_there (a ∷ b ∷ c ∷ d ∷ vs) h = absurd (omega arith)
