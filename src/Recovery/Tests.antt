-- ===== src/Recovery/Tests.antt =====
-- Runs on concrete inputs.
use code_snippet.Common.{
  ℕ, ◌*◌, ◌<◌, ◌≡◌, refl, List, [], ◌∷◌, ◌++◌, true, false, none, some, arith, ltb, if◌then◌else◌,
  length, replicate, length-replicate, codes,
}
use code_snippet.Socket.Nul.{NulFree, no_nul-NulFree}
use code_snippet.Utf8.{start_with}
use code_snippet.Recovery.{
  boot_recovery, recovery_command, Mtd, stores, write_recovery_command, System, restarts,
  install_fota_update,
}
use code_snippet.Recovery.Fields.{Holds}
use code_snippet.Recovery.Misc.{recovery_text, recovery_command_lem, write_recovery_command-Holds}
use code_snippet.Recovery.Command.{recovery_path, interruptions, install_fota_update-restarts}

abbrev update_zip : List ℕ
update_zip = codes "/mnt/u.zip"

update_zip-NulFree : NulFree update_zip
update_zip-NulFree = no_nul-NulFree update_zip refl

recovery_command_example : recovery_command update_zip true ≡ (
    if ltb (length (recovery_text update_zip true)) 256
    then some (boot_recovery (recovery_text update_zip true))
    else none)
recovery_command_example = recovery_command_lem update_zip true update_zip-NulFree

abbrev pages : List ℕ
pages = replicate (544 * 3) 255

abbrev pub misc : Mtd
misc = record {
  found = some 544;
  contents = some pages;
  opens = true;
  takes = 544 * 3;
  finishes = true;
}

write_recovery_command_example :
    (new : List ℕ) × (write_recovery_command misc update_zip false ≡ some (stores new))
    × Holds 544 pages new (codes "boot-recovery") (recovery_text update_zip false)
write_recovery_command_example =
    write_recovery_command-Holds misc update_zip false 544 pages update_zip-NulFree (omega arith)
      refl refl (length-replicate {A = ℕ} (544 * 3) 255) (omega arith) refl refl refl

abbrev calls : System
calls = record { directory = true; opened = true; results = interruptions 2 (interruptions 0 []) }

on_card : length (recovery_path (some (codes "/mnt")) update_zip) < 1024
unfolding start_with
on_card = omega arith

install_fota_update_example :
    install_fota_update calls (some (codes "/mnt")) (some true) update_zip (length update_zip)
    ≡ some (
        restarts (
          codes "--update_package=" ++ (recovery_path (some (codes "/mnt")) update_zip ++ 10 ∷ [])))
install_fota_update_example =
    install_fota_update-restarts calls (some (codes "/mnt")) update_zip 2 0 [] (omega arith)
      (omega arith) on_card refl refl refl
