-- ===== src/Ota.antt =====
-- The daemons that the events connect: the messages of DownloadListener in
-- ffos/ota/src/ota/daemon/CheckDaemon.cpp, ffos/ota/src/ota/daemon/OtaDaemon.cpp, and onEvent of
-- ffos/ota/src/ota/daemon/ServerDaemonImpl.cpp. `none` is an exception of the JSON library, or what C
-- leaves undefined.
pub mod Updates
pub mod Chain
pub mod Wiring
mod Tests
use code_snippet.Common.{
  ℕ, zero, suc, ◌+◌, List, [], ◌∷◌, ◌++◌, Bool, true, false, ◌||◌, Option, none, some, ◌>>=◌, ◌>>◌,
  ltb, if◌then◌else◌, length, codes, text_eq,
}
use code_snippet.Event.{EventLooper, register_listener}
use code_snippet.Json.{Json, get_string, get_bool}
use code_snippet.Files.{Files, clean_dir}
use code_snippet.Task.{cache_root}
use code_snippet.Message.{Properties, Message, ota_message, system_message}
use code_snippet.Recovery.{
  Mtd, Stored, is_recovery_success, is_recovery_failed, clear_recovery_command,
  write_recovery_command,
}

-- DOWNLOAD_EVENT and NOTIFICATION_EVENT
abbrev pub download_event : List ℕ
download_event = codes "download"

abbrev pub notification_event : List ℕ
notification_event = codes "notification"

-- What OtaDaemon changes: the files, what was handed to the misc partition, and the notifications that
-- it sent, the last one in each list being the latest.
pub record World : Type 0 where
  pub files : Files
  pub stored : List Stored
  pub notified : List (List ℕ)

-- sendNotification
abbrev pub send_notification : World → List ℕ → World
send_notification w notification = record w { notified = w.notified ++ notification ∷ [] }

abbrev pub clean_cache : (List ℕ → Bool) → World → World
clean_cache removed w = record w { files = clean_dir removed w.files cache_root }

-- What the system removes for checkLastUpdate: the paths for which `remove` succeeds, and the names that
-- match which `rm` removes, after the report of a success and after that of a failure.
pub record Removals : Type 0 where
  pub file_removed : List ℕ → Bool
  pub cleaned_after : Bool → List ℕ → Bool

abbrev pub with_stored : World → Stored → World
with_stored w s = record w { stored = w.stored ++ s ∷ [] }

-- OtaDaemon::init: 15 tries to have the directory of the cache, with the answers of MkDir and the number of
-- calls of `sleep(1)`, which is the counter. The fuel counts the tries.
unfoldable pub try_init : ℕ → (ℕ → Bool) → ℕ → Bool × ℕ
try_init zero made counter = (false, counter)
try_init (suc left) made counter =
    let later = try_init left made (counter + 1) in if made counter then (true, counter) else later

unfoldable pub init : (ℕ → Bool) → Bool × ℕ
unfolding try_init
init made = try_init 15 made 0

-- The calls of RegisterListener in OtaDaemon::Start, for the addresses of the DownloadListener, the
-- OtaDaemon and the ServerDaemonImpl.
unfoldable pub register_targets : EventLooper → ℕ → ℕ → ℕ → EventLooper
register_targets el listener daemon server =
    let with_server = (register_listener el daemon notification_event server).0 in
    (register_listener with_server listener download_event daemon).0

module _ (j : Json) where
  open j use {Value, parse, print, put, empty, text, boolean}

  -- `message["message"] = name`, printed.
  abbrev pub named : List ℕ → List ℕ
  named name = print (put (codes "message") (text name) empty)

  -- onRetry, onStart and onFailed of DownloadListener, as the text of the event that they send.
  unfoldable pub on_retry : List ℕ
  on_retry = named (codes "retry")

  unfoldable pub on_start : List ℕ
  on_start = named (codes "start")

  unfoldable pub on_failed : List ℕ
  on_failed = named (codes "failed")

  -- onSuccess, with the path of the task.
  unfoldable pub on_success : List ℕ → List ℕ
  on_success path =
      print (put (codes "path") (text path) (put (codes "message") (text (codes "success")) empty))

  -- The result that checkLastUpdate sends.
  abbrev pub result : Bool → List ℕ
  result success = print (
      put (codes "is_success") (boolean success)
        (put (codes "message") (text (codes "result")) empty))

  abbrev pub report : Removals → Bool → Bool → World → World
  report answers present success w =
      if present
      then clean_cache (answers.cleaned_after success) (send_notification w (result success))
      else w

  -- OtaDaemon::checkLastUpdate
  unfoldable pub check_last_update : Removals → World → World
  check_last_update answers w =
      let (files, succeeded) = is_recovery_success answers.file_removed w.files in
      let w1 = report answers succeeded true (record w { files = files }) in
      let (files', failed) = is_recovery_failed answers.file_removed w1.files in
      let w2 = report answers failed false (record w1 { files = files' }) in
      if succeeded || failed then w2 else send_notification w2 (named (codes "system_status"))

  -- OtaDaemon::Start, up to the start of the threads; `none` is the exception.
  unfoldable pub prepare :
      (ℕ → Bool) → Removals → World → EventLooper → ℕ → ℕ → ℕ → Option (World × EventLooper)
  unfolding init check_last_update register_targets
  prepare made answers w el listener daemon server =
      if (init made).0
      then some (check_last_update answers w, register_targets el listener daemon server)
      else none

  -- The branches of OtaDaemon::onEvent for the text under "message"; `removed` tells which names `rm`
  -- removes.
  unfoldable pub on_download_message : (List ℕ → Bool) → Mtd → World → Value → List ℕ → Option World
  unfolding get_string
  on_download_message removed mtd w value message =
      if text_eq (codes "start") message || text_eq (codes "failed") message
      then (do
        s ← clear_recovery_command mtd
        let w' : World = send_notification (with_stored w s) (named (codes "clear"))
        some (if text_eq (codes "failed") message then clean_cache removed w' else w'))
      else if text_eq (codes "success") message
      then (do
        path ← get_string j value (codes "path")
        s ← write_recovery_command mtd path false
        some (send_notification (with_stored w s) (named (codes "reboot"))))
      else some w

  -- OtaDaemon::onEvent
  unfoldable pub on_event : (List ℕ → Bool) → Mtd → World → List ℕ → List ℕ → Option World
  unfolding on_download_message get_string
  on_event removed mtd w type message = elim (parse message) [
    | none ↦ some w
    | some value ↦
        if text_eq download_event type
        then (do
          name ← get_string j value (codes "message")
          on_download_message removed mtd w value name)
        else some w
  ]

  module _ (properties : Properties) where
    -- The branches of ServerDaemonImpl::onEvent: the message to push, if any. `m_HasUpdateResult` and
    -- `m_UpdateResult` are set and never read elsewhere.
    unfoldable pub message_for : Value → List ℕ → Option (Option Message)
    unfolding get_bool
    message_for value name =
        if text_eq (codes "reboot") name
        then some (some (ota_message properties (codes "EVENT_DOWNLOAD") (codes "SUCCESS")))
        else if text_eq (codes "clear") name
        then some (some (ota_message properties (codes "EVENT_CLEAR_MSG") []))
        else if text_eq (codes "result") name
        then (do
          success ← get_bool j value (codes "is_success")
          some (
              some (
                ota_message properties (codes "EVENT_UPGRADE")
                  (if success then codes "SUCCESS" else codes "FAIL"))))
        else if text_eq (codes "system_status") name
        then some (some (system_message properties))
        else some none

    -- ServerDaemonImpl::onEvent, as the message that it pushes.
    unfoldable pub notify : List ℕ → List ℕ → Option (Option Message)
    unfolding message_for get_string
    notify type message = elim (parse message) [
      | none ↦ some none
      | some value ↦
          if text_eq notification_event type
          then (do name ← get_string j value (codes "message"); message_for value name)
          else some none
    ]
