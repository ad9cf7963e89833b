-- ===== src/Recovery.antt =====
-- ffos/ota/src/platform/RecoveryManager.cpp: the message for the boot loader on the misc partition,
-- and the command file of the recovery. The results of mtdutils.c and of the system calls are
-- arguments. `none` is what C leaves undefined: a write past an array, a read of bytes never written.
pub mod Fields
pub mod Misc
pub mod Clearing
pub mod Command
mod Tests
use code_snippet.Common.{
  ℕ, ◌+◌, ◌-◌, ◌*◌, List, [], ◌∷◌, ◌++◌, Bool, true, false, not, ◌&&◌, ◌||◌, Option, none, some,
  ◌>>=◌, ltb, leb, ◌==◌, if◌then◌else◌, length, take, drop, replicate, codes,
}
use code_snippet.Socket.Framing.{c_str}
use code_snippet.Utf8.{start_with}
use code_snippet.Files.{Files, is_file_exist, delete_file}

abbrev pub zeros : ℕ → List ℕ
zeros n = replicate n 0

pub record BootloaderMessage : Type 0 where
  pub command : List ℕ
  pub status : List ℕ
  pub recovery : List ℕ

-- `memset(&boot, 0, sizeof(boot))`
abbrev pub empty_message : BootloaderMessage
empty_message = record { command = zeros 32; status = zeros 32; recovery = zeros 1024 }

abbrev pub message_bytes : BootloaderMessage → List ℕ
message_bytes boot = boot.command ++ (boot.status ++ boot.recovery)

-- `strlcpy` into an array that holds zeros.
unfoldable pub strlcpy : ℕ → List ℕ → List ℕ
strlcpy size text = let copied = take (size - 1) text in copied ++ zeros (size - length copied)

-- `strcat` into an array of a size.
unfoldable pub strcat : ℕ → List ℕ → List ℕ → Option (List ℕ)
strcat size text more = if ltb (length text + length more) size then some (text ++ more) else none

abbrev pub boot_recovery : List ℕ → BootloaderMessage
boot_recovery cmd = record empty_message {
  command = strlcpy 32 (codes "boot-recovery");
  recovery = strlcpy 1024 cmd;
}

-- The message of WriteRecoveryCommand, where `cmd` has 256 bytes.
unfoldable pub recovery_command : List ℕ → Bool → Option BootloaderMessage
unfolding strcat c_str
recovery_command path wipe = do
  cmd ← strcat 256 (codes "recovery" ++ 10 ∷ codes "--update_package=") (c_str path)
  whole ← if wipe then strcat 256 cmd (10 ∷ codes "--wipe_data") else some cmd
  some (boot_recovery whole)

-- What the calls of mtdutils.c give: the write size of the partition "misc" (nothing if it is not
-- found), the bytes that were read (nothing if it cannot be opened), whether it opens for writing, the
-- result of mtd_write_data, and whether mtd_write_close succeeds.
pub record Mtd : Type 0 where
  pub found : Option ℕ
  pub contents : Option (List ℕ)
  pub opens : Bool
  pub takes : ℕ
  pub finishes : Bool

-- `return -1`, or `return 0`; with the bytes that were handed to mtd_write_data.
pub data Stored : Type 0 where
  fails : Option (List ℕ) → Stored
  stores : List ℕ → Stored

abbrev pub misc_pages : ℕ
misc_pages = 3

-- `memcpy` to a place in an array; nothing if it does not fit.
unfoldable pub memcpy_at : ℕ → List ℕ → List ℕ → Option (List ℕ)
memcpy_at place from to =
    if leb (place + length from) (length to)
    then some (take place to ++ (from ++ drop (place + length from) to))
    else none

abbrev pub finish : Mtd → ℕ → List ℕ → Stored
finish mtd size data_ =
    if not mtd.opens
    then fails none
    else if not (mtd.takes == size)
    then fails (some data_)
    else if mtd.finishes
    then stores data_
    else fails (some data_)

unfoldable pub set_bootloader_message_mtd : Mtd → BootloaderMessage → Option Stored
unfolding memcpy_at
set_bootloader_message_mtd mtd boot = elim mtd.found [
  | none ↦ some (fails none)
  | some write_size ↦ elim mtd.contents [
    | none ↦ some (fails none)
    | some data_ ↦ if not (length data_ == write_size * misc_pages) then some (fails none) else (do
      changed ← memcpy_at write_size (message_bytes boot) data_
      some (finish mtd (write_size * misc_pages) changed))
  ]
]

unfoldable pub write_recovery_command : Mtd → List ℕ → Bool → Option Stored
unfolding recovery_command set_bootloader_message_mtd
write_recovery_command mtd path wipe = do
  boot ← recovery_command path wipe
  set_bootloader_message_mtd mtd boot

unfoldable pub clear_recovery_command : Mtd → Option Stored
unfolding set_bootloader_message_mtd
clear_recovery_command mtd = set_bootloader_message_mtd mtd empty_message

unfoldable pub wipe_data : Mtd → Option Stored
unfolding set_bootloader_message_mtd
wipe_data mtd =
    set_bootloader_message_mtd mtd (boot_recovery (codes "recovery" ++ 10 ∷ codes "--wipe_data"))

-- IsRecoverySuccess and IsRecoveryFailed differ in the file that they take away; `removed` tells for
-- which paths `remove` succeeds.
unfoldable pub take_file : (List ℕ → Bool) → List ℕ → Files → Files × Bool
take_file removed path files =
    if is_file_exist files path
    then (delete_file (removed path) files path, true)
    else (files, false)

abbrev pub update_suc : List ℕ
update_suc = codes "/cache/update.suc"

abbrev pub update_err : List ℕ
update_err = codes "/cache/update.err"

unfoldable pub is_recovery_success : (List ℕ → Bool) → Files → Files × Bool
unfolding take_file
is_recovery_success removed files = take_file removed update_suc files

unfoldable pub is_recovery_failed : (List ℕ → Bool) → Files → Files × Bool
unfolding take_file
is_recovery_failed removed files = take_file removed update_err files

-- `strlcat` onto a text in an array, with the size that is claimed for it.
unfoldable pub strlcat : ℕ → List ℕ → List ℕ → List ℕ
strlcat size text more = text ++ take (size - 1 - length text) more

abbrev pub in_bounds : Bool → List ℕ → ℕ → Option (List ℕ × ℕ)
in_bounds fits dest n = if fits then some (dest, n) else none

-- `strlcpy` of the path into `destPath`, as it stands.
abbrev pub keep_path : List ℕ → ℕ → Option (List ℕ × ℕ)
keep_path src_path src_length =
    let copied = take src_length src_path in in_bounds (ltb (length copied) 1024) copied src_length

-- convertExternalStoragePath for a `destPath` of 1024 bytes: the text there, and the result. A
-- `src_length` below the size of EXTERNAL_STORAGE, for which the sizes wrap around, is left out: `none`.
unfoldable pub convert_external_storage_path : Option (List ℕ) → List ℕ → ℕ → Option (List ℕ × ℕ)
unfolding strlcat
convert_external_storage_path ext_storage src_path src_length = elim ext_storage [
  | none ↦ keep_path src_path src_length
  | some ext ↦
      if start_with src_path ext
      then (let dest_length = 7 + (src_length - length ext) in
          let dest = strlcat (dest_length + 1) (codes "/sdcard") (drop (length ext) src_path) in
          in_bounds (leb (length ext) src_length && ltb (length dest) 1024) dest dest_length)
      else keep_path src_path src_length
]

-- A call of `fwrite` of one item.
pub data Fwrite : Type 0 where
  wrote : Fwrite
  -- nothing written, with EINTR
  interrupted : Fwrite
  -- nothing written, with the error indicator and another errno
  error : Fwrite

-- safeWrite, with the calls that are left; `none` while it has not returned.
unfoldable pub safe_write : List Fwrite → Option (Bool × List Fwrite)
safe_write [] = none
safe_write (wrote ∷ results) = some (true, results)
safe_write (interrupted ∷ results) = safe_write results
safe_write (error ∷ results) = some (false, results)

-- What the system calls of execRecoveryCommand give.
pub record System : Type 0 where
  pub directory : Bool
  pub opened : Bool
  pub results : List Fwrite

-- `return -1`; or the restart into the recovery, with what the command file holds.
pub data Executed : Type 0 where
  refused : Executed
  restarts : List ℕ → Executed

unfoldable pub exec_recovery_command : System → List ℕ → Option Executed
unfolding safe_write
exec_recovery_command sys command =
    if not sys.directory || not sys.opened then some refused else elim (safe_write sys.results) [
      | none ↦ none
      | some first ↦ if not first.0 then some refused else elim (safe_write first.1) [
        | none ↦ none
        | some second ↦ some (if second.0 then restarts (command ++ 10 ∷ []) else refused)
      ]
    ]

-- The bytes of an array with a text in it, of which one more holds the NUL.
unfoldable pub first_bytes : ℕ → List ℕ → Option (List ℕ)
first_bytes n text = if leb n (length text + 1) then some (take n (text ++ 0 ∷ [])) else none

-- installFotaUpdate; `regular` is the answer of `stat`, and the path has no NUL. A negative length ends
-- like the length 0.
unfoldable pub install_fota_update :
    System → Option (List ℕ) → Option Bool → List ℕ → ℕ → Option Executed
unfolding convert_external_storage_path first_bytes exec_recovery_command
install_fota_update sys ext_storage regular path path_length =
    if path_length == 0 then some refused else elim regular [
      | none ↦ some refused
      | some is_regular ↦ if not is_regular then some refused else (do
        converted ← convert_external_storage_path ext_storage path path_length
        command ← first_bytes (17 + converted.1) (codes "--update_package=" ++ converted.0)
        exec_recovery_command sys command)
    ]

-- UpdateOta, for whether the file of a success can be removed.
unfoldable pub update_ota :
    System → Bool → Option (List ℕ) → Option Bool → Files → List ℕ → ℕ → Files × Option Executed
unfolding install_fota_update c_str
update_ota sys removed ext_storage regular files path path_length = (
  delete_file removed files update_suc,
  install_fota_update sys ext_storage regular (c_str path) path_length,
)
