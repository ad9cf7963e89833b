-- ===== src/Proc/Tests.antt =====
-- A run on a file with two lines.
use code_snippet.Common.{
  ℕ, ◌≡◌, refl, List, [], ◌∷◌, true, false, arith, replicate, ◌++◌, none, some, if◌then◌else◌,
  codes, text_eq,
}
use code_snippet.Utf8.{start_with}
use code_snippet.Files.{Files}
use code_snippet.Common.Decimal.{decimal}
use code_snippet.Socket.Framing.{c_str}
use code_snippet.Proc.Monitor.{answers, overflows, check_alive}
use code_snippet.Proc.Alive.{AreWords, line_of, check_alive-words}
use code_snippet.Proc.{find, lines, last_value, get_value}

abbrev rknand : Files
rknand path =
    if text_eq path (codes "/proc/rknand")
    then some (codes "HWINF = 2" ++ 10 ∷ codes "SN = a1")
    else none

serial_number :
    get_value rknand (codes "/proc/rknand") (codes "SN =") 5 (codes "unknow") ≡ some (codes "a1")
unfolding get_value lines last_value find start_with
serial_number = refl

abbrev cast_app : List (List ℕ)
cast_app = codes "CastAppContaine" ∷ codes "1" ∷ codes "root" ∷ codes "245" ∷ codes "S" ∷ []

cast_app-AreWords : AreWords cast_app
cast_app-AreWords = (
  λ e. cc e,
  ground arith,
  (
    λ e. cc e,
    ground arith,
    (λ e. cc e, ground arith, (λ e. cc e, ground arith, (λ e. cc e, ground arith, tt))),
  ),
)

check_alive-words_example :
    check_alive
      (codes "CastAppContaine")
      (some (line_of cast_app ++ 10 ∷ []))
      (λ negative pid. false)
    ≡ answers true (some false)
unfolding decimal c_str
check_alive-words_example =
    check_alive-words (codes "CastAppContaine") [] (codes "CastAppContaine") (codes "1")
      (codes "root") 245 (codes "S" ∷ []) (λ negative pid. false) (omega arith) cast_app-AreWords
      (omega arith) (omega arith)

-- A name of 114 characters is too long for the command.
long_name : check_alive (replicate 114 b'a') none (λ negative pid. true) ≡ overflows
unfolding check_alive c_str
long_name = refl
