-- ===== src/Recovery/Misc.antt =====
-- What WriteRecoveryCommand leaves on the misc partition.
use code_snippet.Common.{
  ℕ, ◌+◌, ◌*◌, ◌≤◌, ◌<◌, ◌≡◌, refl, ap, ◌∙◌, inl, inr, List, ◌∷◌, ◌++◌, Bool, true, false, Option,
  none, some, ◌>>=◌, arith, ltb, ==_iff, lt→ltb, le→leb, ltb_false→le, le→ltb_false, if◌then◌else◌,
  Bool-cases, length, take, drop, codes, length-append, length-take, length-replicate,
}
use code_snippet.Socket.Nul.{NulFree, NulFree-append, c_str-NulFree, no_nul-NulFree}
use code_snippet.Recovery.Fields.{c_str-strlcpy, length-strlcpy, Holds, image-Holds}
use code_snippet.Recovery.{
  BootloaderMessage, message_bytes, zeros, strlcpy, strcat, boot_recovery, recovery_command, Mtd,
  stores, memcpy_at, set_bootloader_message_mtd, write_recovery_command,
}

-- The text that the recovery is to find.
abbrev pub recovery_text : List ℕ → Bool → List ℕ
recovery_text path wipe =
    let cmd = (codes "recovery" ++ 10 ∷ codes "--update_package=") ++ path in
    if wipe then cmd ++ 10 ∷ codes "--wipe_data" else cmd

strcat-length :
    (size : ℕ) (xs ys : List ℕ)
    → strcat size xs ys ≡ (if ltb (length (xs ++ ys)) size then some (xs ++ ys) else none)
unfolding strcat
strcat-length size xs ys = rw (length-append xs ys) refl

strcat_then :
    (size : ℕ) (xs ys : List ℕ) (f : List ℕ → BootloaderMessage)
    → (strcat size xs ys >>= λ whole. some (f whole))
      ≡ (if ltb (length (xs ++ ys)) size then some (f (xs ++ ys)) else none)
strcat_then size xs ys f =
    rw (strcat-length size xs ys) (elim (Bool-cases (ltb (length (xs ++ ys)) size)) [
      | inl fits ↦ rw fits refl
      | inr long ↦ rw long refl
    ])

strcat_twice :
    (size : ℕ) (xs ys zs : List ℕ) (f : List ℕ → BootloaderMessage)
    → (strcat size xs ys >>= λ cmd. strcat size cmd zs >>= λ whole. some (f whole))
      ≡ (if ltb (length ((xs ++ ys) ++ zs)) size then some (f ((xs ++ ys) ++ zs)) else none)
strcat_twice size xs ys zs f =
    rw (strcat-length size xs ys) (elim (Bool-cases (ltb (length (xs ++ ys)) size)) [
      | inl fits ↦ rw fits (strcat_then size (xs ++ ys) zs f)
      | inr long ↦ rw (long, longer (ltb_false→le _ _ long)) refl
    ])
  where
    longer : size ≤ length (xs ++ ys) → ltb (length ((xs ++ ys) ++ zs)) size ≡ false
    longer h = le→ltb_false _ _ (omega (arith, length-append (xs ++ ys) zs))

abbrev command_start : List ℕ
command_start = codes "recovery" ++ 10 ∷ codes "--update_package="

-- For every path without a NUL: WriteRecoveryCommand writes past `cmd[256]` exactly when the command
-- with the path, and the line for wiping if it is asked for, has 256 characters or more; otherwise the
-- message is the one for the whole command.
pub recovery_command_lem :
    (path : List ℕ) (wipe : Bool)
    → NulFree path
    → recovery_command path wipe ≡ (
        if ltb (length (recovery_text path wipe)) 256
        then some (boot_recovery (recovery_text path wipe))
        else none)
unfolding recovery_command
recovery_command_lem path true h =
    rw (c_str-NulFree path h)
      (strcat_twice 256 command_start path (10 ∷ codes "--wipe_data") boot_recovery)
recovery_command_lem path false h =
    rw (c_str-NulFree path h) (strcat_then 256 command_start path boot_recovery)

memcpy_fits :
    (place : ℕ) (from to : List ℕ)
    → place + length from ≤ length to
    → memcpy_at place from to ≡ some (take place to ++ (from ++ drop (place + length from) to))
unfolding memcpy_at
memcpy_fits place from to h = rw (le→leb _ _ h) refl

pub length-bytes :
    (text : List ℕ) → length text < 1024 → length (message_bytes (boot_recovery text)) ≡ 1088
length-bytes text short = omega (
  arith,
  length-append (strlcpy 32 (codes "boot-recovery")) (zeros 32 ++ strlcpy 1024 text),
  length-append (zeros 32) (strlcpy 1024 text),
  length-strlcpy 32 (codes "boot-recovery") (omega arith),
  length-replicate {A = ℕ} 32 0,
  length-strlcpy 1024 text short,
)

pub boot_recovery-Holds :
    (w : ℕ) (old text : List ℕ)
    → w ≤ length old
    → NulFree text
    → length text < 1024
    → Holds w old
        (take w old ++ (message_bytes (boot_recovery text) ++ drop (w + 1088) old))
        (codes "boot-recovery")
        text
boot_recovery-Holds w old text long free short =
    image-Holds w (take w old) (strlcpy 32 (codes "boot-recovery")) (zeros 32) (strlcpy 1024 text)
      (drop (w + 1088) old) (omega (arith, length-take w old)) old (codes "boot-recovery") text
      (length-strlcpy 32 (codes "boot-recovery") (omega arith)) (length-replicate {A = ℕ} 32 0)
      (length-strlcpy 1024 text short)
      (λ more. c_str-strlcpy 32 (codes "boot-recovery") more plain (omega arith))
      (λ more. c_str-strlcpy 1024 text more free short) refl refl
  where
    plain : NulFree (codes "boot-recovery")
    plain = no_nul-NulFree (codes "boot-recovery") refl

command-NulFree : (path : List ℕ) → NulFree path → NulFree (command_start ++ path)
command-NulFree path h = NulFree-append command_start path (no_nul-NulFree command_start refl) h

recovery_text-NulFree :
    (path : List ℕ) (wipe : Bool) → NulFree path → NulFree (recovery_text path wipe)
recovery_text-NulFree path true h =
    NulFree-append (command_start ++ path) (10 ∷ codes "--wipe_data") (command-NulFree path h)
      (no_nul-NulFree (10 ∷ codes "--wipe_data") refl)
recovery_text-NulFree path false h = command-NulFree path h

pub set_bootloader_message_mtd-stores :
    (mtd : Mtd) (boot : BootloaderMessage) (w : ℕ) (old : List ℕ)
    → length (message_bytes boot) ≡ 1088
    → mtd.found ≡ some w
    → mtd.contents ≡ some old
    → length old ≡ w * 3
    → 544 ≤ w
    → mtd.opens ≡ true
    → mtd.takes ≡ w * 3
    → mtd.finishes ≡ true
    → set_bootloader_message_mtd mtd boot
      ≡ some (stores (take w old ++ (message_bytes boot ++ drop (w + 1088) old)))
unfolding set_bootloader_message_mtd
set_bootloader_message_mtd-stores mtd boot w old message found contents size large opens takes
      finishes =
    rw
      (
        found,
        contents,
        (==_iff (length old) (w * 3)).1 size,
        memcpy_fits w (message_bytes boot) old (omega (arith, message, size, large)),
        opens,
        (==_iff mtd.takes (w * 3)).1 takes,
        finishes,
        message,
      )
      refl

-- WriteRecoveryCommand on a partition whose pages are large enough, where every call succeeds, for a
-- path without a NUL whose command has fewer than 256 characters: it stores 3 pages; the boot
-- loader then reads "boot-recovery" and the recovery reads the command with the path, whole, and with
-- the line for wiping if and only if it was asked for; the first page and everything behind the message
-- are what they were.
pub write_recovery_command-Holds :
    (mtd : Mtd) (path : List ℕ) (wipe : Bool) (w : ℕ) (old : List ℕ)
    → NulFree path
    → length (recovery_text path wipe) < 256
    → mtd.found ≡ some w
    → mtd.contents ≡ some old
    → length old ≡ w * 3
    → 544 ≤ w
    → mtd.opens ≡ true
    → mtd.takes ≡ w * 3
    → mtd.finishes ≡ true
    → (new : List ℕ) × (write_recovery_command mtd path wipe ≡ some (stores new))
      × Holds w old new (codes "boot-recovery") (recovery_text path wipe)
unfolding write_recovery_command
write_recovery_command-Holds mtd path wipe w old free short found contents size large opens takes
      finishes =
    (
      _,
      ap (λ (o : Option BootloaderMessage). o >>= λ boot. set_bootloader_message_mtd mtd boot)
            written
          ∙ set_bootloader_message_mtd-stores mtd (boot_recovery (recovery_text path wipe)) w old
              (length-bytes (recovery_text path wipe) (omega arith)) found contents size large opens
              takes finishes,
      boot_recovery-Holds w old (recovery_text path wipe) (omega arith)
          (recovery_text-NulFree path wipe free) (omega arith),
    )
  where
    written : recovery_command path wipe ≡ some (boot_recovery (recovery_text path wipe))
    written = recovery_command_lem path wipe free ∙ rw (lt→ltb _ 256 short) refl
