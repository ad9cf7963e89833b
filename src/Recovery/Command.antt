-- ===== src/Recovery/Command.antt =====
-- The command file that installFotaUpdate leaves for the recovery.
use code_snippet.Common.{
  ℕ, zero, suc, ◌+◌, ◌-◌, ◌≤◌, ◌<◌, ◌≡◌, refl, ap, inl, inr, List, [], ◌∷◌, ◌++◌, true, false, ◌&&◌,
  Option, none, some, arith, ltb, leb, ◌==◌, lt→ltb, le→leb, if◌then◌else◌, Bool-cases, length,
  take, drop, codes, length-take, length-drop, take_all, take-append_self, text_eq_iff,
}
use code_snippet.Utf8.{start_with}
use code_snippet.Recovery.{
  in_bounds, keep_path, strlcat, convert_external_storage_path, Fwrite, wrote, interrupted, System,
  restarts, first_bytes, exec_recovery_command, safe_write, install_fota_update,
}

-- The path as the recovery sees it: the place of the external storage, if the path starts with it, is
-- /sdcard there.
abbrev pub recovery_path : Option (List ℕ) → List ℕ → List ℕ
recovery_path none path = path
recovery_path (some ext) path =
    if start_with path ext then codes "/sdcard" ++ drop (length ext) path else path

start_with-length : (path ext : List ℕ) → start_with path ext ≡ true → length ext ≤ length path
unfolding start_with
start_with-length path ext h = omega (
  arith,
  ap length ((text_eq_iff (take (length ext) path) ext).0 h),
  length-take (length ext) path,
)

kept :
    (path : List ℕ) → length path < 1024 → keep_path path (length path) ≡ some (path, length path)
kept path short = rw (take_all (length path) path (omega arith), lt→ltb _ 1024 short) refl

strlcat_all :
    (size : ℕ) (text more : List ℕ)
    → length text + length more < size
    → strlcat size text more ≡ text ++ more
unfolding strlcat
strlcat_all size text more h = ap (◌++◌ text) (take_all (size - 1 - length text) more (omega arith))

moved :
    (path ext : List ℕ)
    → length ext ≤ length path
    → length (codes "/sdcard" ++ drop (length ext) path) < 1024
    → in_bounds
        (leb (length ext) (length path)
          && ltb
              (length (
                strlcat
                  (7 + (length path - length ext) + 1)
                  (codes "/sdcard")
                  (drop (length ext) path)))
              1024)
        (strlcat (7 + (length path - length ext) + 1) (codes "/sdcard") (drop (length ext) path))
        (7 + (length path - length ext))
      ≡ some (
        codes "/sdcard" ++ drop (length ext) path,
        length (codes "/sdcard" ++ drop (length ext) path),
      )
moved path ext h fits =
    rw
      (
        le→leb _ _ h,
        strlcat_all (7 + (length path - length ext) + 1) (codes "/sdcard") (drop (length ext) path)
            (omega (arith, length-drop (length ext) path)),
        lt→ltb _ 1024 fits,
      )
      (ap (λ (n : ℕ). some (codes "/sdcard" ++ drop (length ext) path, n))
        (omega (arith, length-drop (length ext) path)))

convert-recovery_path :
    (ext_storage : Option (List ℕ)) (path : List ℕ)
    → length path < 1024
    → length (recovery_path ext_storage path) < 1024
    → convert_external_storage_path ext_storage path (length path)
      ≡ some (recovery_path ext_storage path, length (recovery_path ext_storage path))
unfolding convert_external_storage_path strlcat
convert-recovery_path none path short fits = kept path short
convert-recovery_path (some ext) path short fits = elim (Bool-cases (start_with path ext)) [
  | inr other ↦ rw other (kept path short)
  | inl inside ↦ rw inside (moved path ext (start_with-length path ext inside) (rw inside at fits))
]

-- Calls of `fwrite` that write in the end: any number of interrupted ones before each.
abbrev pub interruptions : ℕ → List Fwrite → List Fwrite
interruptions zero rest = wrote ∷ rest
interruptions (suc n) rest = interrupted ∷ interruptions n rest

safe_write-interruptions :
    (n : ℕ) (rest : List Fwrite) → safe_write (interruptions n rest) ≡ some (true, rest)
unfolding safe_write
safe_write-interruptions zero rest = refl
safe_write-interruptions (suc n) rest = safe_write-interruptions n rest

first_bytes_all : (n : ℕ) (text : List ℕ) → n ≡ length text → first_bytes n text ≡ some text
unfolding first_bytes
first_bytes_all n text e =
    rw (le→leb n (length text + 1) (omega arith), take-append_self text (0 ∷ []) n e) refl

-- installFotaUpdate on a regular file, whose path is not empty, handed over with its own length and is, as it
-- stands and as the recovery sees it, shorter than 1024 characters; with a directory and a command file
-- that can be opened, and calls of `fwrite` that write after any number of interruptions: the device
-- restarts into the recovery, and the command file holds exactly one line with the option and the path
-- as the recovery sees it.
pub install_fota_update-restarts :
    (sys : System) (ext_storage : Option (List ℕ)) (path : List ℕ) (n m : ℕ) (rest : List Fwrite)
    → 0 < length path
    → length path < 1024
    → length (recovery_path ext_storage path) < 1024
    → sys.directory ≡ true
    → sys.opened ≡ true
    → sys.results ≡ interruptions n (interruptions m rest)
    → install_fota_update sys ext_storage (some true) path (length path)
      ≡ some (restarts (codes "--update_package=" ++ (recovery_path ext_storage path ++ 10 ∷ [])))
unfolding install_fota_update exec_recovery_command
install_fota_update-restarts sys ext_storage path n m rest pos short fits directory opened results =
    rw
      (
        not_zero (length path) pos,
        convert-recovery_path ext_storage path short fits,
        first_bytes_all (17 + length (recovery_path ext_storage path))
            (codes "--update_package=" ++ recovery_path ext_storage path) (omega arith),
        directory,
        opened,
        results,
        safe_write-interruptions n (interruptions m rest),
        safe_write-interruptions m rest,
      )
      refl
  where
    not_zero : (k : ℕ) → 0 < k → (k == 0) ≡ false
    not_zero k h = ground arith
