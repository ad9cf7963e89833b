-- ===== src/Recovery/Clearing.antt =====
-- What ClearRecoveryCommand and WipeData leave on the misc partition.
use code_snippet.Common.{
  ℕ, ◌+◌, ◌*◌, ◌≤◌, ◌≡◌, refl, List, [], ◌∷◌, ◌++◌, true, some, arith, length, take, drop, codes,
  length-append, length-take, length-replicate,
}
use code_snippet.Socket.Nul.{no_nul-NulFree}
use code_snippet.Recovery.Fields.{Holds, image-Holds, c_str-zeros}
use code_snippet.Recovery.Misc.{
  set_bootloader_message_mtd-stores, boot_recovery-Holds, length-bytes,
}
use code_snippet.Recovery.{
  empty_message, message_bytes, zeros, boot_recovery, Mtd, stores, clear_recovery_command,
  wipe_data,
}

length-empty : length (message_bytes empty_message) ≡ 1088
length-empty = omega (
  arith,
  length-append (zeros 32) (zeros 32 ++ zeros 1024),
  length-append (zeros 32) (zeros 1024),
  length-replicate {A = ℕ} 32 0,
  length-replicate {A = ℕ} 1024 0,
)

empty-Holds :
    (w : ℕ) (old : List ℕ)
    → w ≤ length old
    → Holds w old (take w old ++ (message_bytes empty_message ++ drop (w + 1088) old)) [] []
empty-Holds w old long =
    image-Holds w (take w old) (zeros 32) (zeros 32) (zeros 1024) (drop (w + 1088) old)
      (omega (arith, length-take w old)) old [] [] (length-replicate {A = ℕ} 32 0)
      (length-replicate {A = ℕ} 32 0) (length-replicate {A = ℕ} 1024 0)
      (λ more. c_str-zeros [] more 32 (omega arith) tt)
      (λ more. c_str-zeros [] more 1024 (omega arith) tt) refl refl

module _ (mtd : Mtd) (w : ℕ) (old : List ℕ) (found : mtd.found ≡ some w)
    (contents : mtd.contents ≡ some old) (size : length old ≡ w * 3) (large : 544 ≤ w)
    (opens : mtd.opens ≡ true) (takes : mtd.takes ≡ w * 3) (finishes : mtd.finishes ≡ true) where
  -- After ClearRecoveryCommand neither the boot loader nor the recovery finds a command.
  pub clear_recovery_command-Holds :
      (new : List ℕ) × (clear_recovery_command mtd ≡ some (stores new)) × Holds w old new [] []
  unfolding clear_recovery_command
  clear_recovery_command-Holds = (
    _,
    set_bootloader_message_mtd-stores mtd empty_message w old length-empty found contents size large
        opens takes finishes,
    empty-Holds w old (omega arith),
  )

  -- After WipeData the boot loader finds the command for the recovery, and the recovery the one for wiping.
  pub wipe_data-Holds :
      (new : List ℕ) × (wipe_data mtd ≡ some (stores new))
      × Holds w old new (codes "boot-recovery") (codes "recovery" ++ 10 ∷ codes "--wipe_data")
  unfolding wipe_data
  wipe_data-Holds = (
    _,
    set_bootloader_message_mtd-stores mtd
        (boot_recovery (codes "recovery" ++ 10 ∷ codes "--wipe_data")) w old
        (length-bytes (codes "recovery" ++ 10 ∷ codes "--wipe_data") (omega arith)) found contents
        size large opens takes finishes,
    boot_recovery-Holds w old (codes "recovery" ++ 10 ∷ codes "--wipe_data") (omega arith)
        (no_nul-NulFree (codes "recovery" ++ 10 ∷ codes "--wipe_data") refl) (omega arith),
  )
