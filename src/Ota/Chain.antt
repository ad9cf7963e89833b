-- ===== src/Ota/Chain.antt =====
-- From the end of a download to the boot loader and to the message for the home application.
use code_snippet.Common.{
  ℕ, ◌*◌, ◌≤◌, ◌<◌, ◌≡◌, refl, ◌∙◌, List, [], ◌∷◌, ◌++◌, Bool, true, false, some, ◌>>=◌, arith,
  if◌then◌else◌, codes, length,
}
use code_snippet.Json.{Json, IsText, Laws}
use code_snippet.Json.Objects.{build, member, read_as, parse-print, read_string, read_bool}
use code_snippet.Files.{clean_dir}
use code_snippet.Task.{cache_root}
use code_snippet.Socket.Nul.{NulFree, no_nul-NulFree}
use code_snippet.Message.{Properties, ota_message, system_message}
use code_snippet.Recovery.{Mtd, stores, clear_recovery_command, write_recovery_command}
use code_snippet.Recovery.Fields.{Holds}
use code_snippet.Recovery.Clearing.{clear_recovery_command-Holds}
use code_snippet.Recovery.Misc.{recovery_text, write_recovery_command-Holds}
use code_snippet.Ota.{
  download_event, notification_event, World, send_notification, clean_cache, with_stored, named,
  on_start, on_failed, on_success, on_retry, result, on_download_message, on_event, message_for,
  notify,
}

module _ (j : Json) (laws : Laws j) where
  open j use {Value, text, boolean}

  -- An event whose text is a printed object with a name in it.
  download_named :
      (removed : List ℕ → Bool) (mtd : Mtd) (w : World) (ms : List (List ℕ × Value)) (name : List ℕ)
      → IsText name
      → member j (codes "message") ms ≡ some (text name)
      → on_event j removed mtd w download_event (j.print (build j ms))
        ≡ on_download_message j removed mtd w (read_as j laws ms) name
  unfolding on_event
  download_named removed mtd w ms name plain h =
      rw (parse-print j laws ms, on_event)
        (rw (read_string j laws ms (codes "message") name plain h) refl)

  notify_named :
      (properties : Properties) (ms : List (List ℕ × Value)) (name : List ℕ)
      → IsText name
      → member j (codes "message") ms ≡ some (text name)
      → notify j properties notification_event (j.print (build j ms))
        ≡ message_for j properties (read_as j laws ms) name
  unfolding notify
  notify_named properties ms name plain h =
      rw (parse-print j laws ms, notify)
        (rw (read_string j laws ms (codes "message") name plain h) refl)

  on_event-on_start :
      (removed : List ℕ → Bool) (mtd : Mtd) (w : World)
      → on_event j removed mtd w download_event (on_start j) ≡ (
          clear_recovery_command mtd >>= λ s.
          some (send_notification (with_stored w s) (named j (codes "clear"))))
  unfolding on_start on_download_message
  on_event-on_start removed mtd w =
      download_named removed mtd w ((codes "message", text (codes "start")) ∷ []) (codes "start")
        (no_nul-NulFree (codes "start") refl) refl

  on_event-on_failed :
      (removed : List ℕ → Bool) (mtd : Mtd) (w : World)
      → on_event j removed mtd w download_event (on_failed j) ≡ (
          clear_recovery_command mtd >>= λ s.
          some
            (clean_cache removed (send_notification (with_stored w s) (named j (codes "clear")))))
  unfolding on_failed on_download_message
  on_event-on_failed removed mtd w =
      download_named removed mtd w ((codes "message", text (codes "failed")) ∷ []) (codes "failed")
        (no_nul-NulFree (codes "failed") refl) refl

  on_event-on_retry :
      (removed : List ℕ → Bool) (mtd : Mtd) (w : World)
      → on_event j removed mtd w download_event (on_retry j) ≡ some w
  unfolding on_retry on_download_message
  on_event-on_retry removed mtd w =
      download_named removed mtd w ((codes "message", text (codes "retry")) ∷ []) (codes "retry")
        (no_nul-NulFree (codes "retry") refl) refl

  on_event-on_success :
      (removed : List ℕ → Bool) (mtd : Mtd) (w : World) (path : List ℕ)
      → IsText path
      → on_event j removed mtd w download_event (on_success j path) ≡ (
          write_recovery_command mtd path false >>= λ s.
          some (send_notification (with_stored w s) (named j (codes "reboot"))))
  unfolding on_success on_download_message
  on_event-on_success removed mtd w path plain =
      download_named removed mtd w members (codes "success") (no_nul-NulFree (codes "success") refl)
        refl
      ∙ rw (read_string j laws members (codes "path") path plain refl) refl
    where
      members : List (List ℕ × Value)
      members = (codes "path", text path) ∷ (codes "message", text (codes "success")) ∷ []

  -- With a JSON library that keeps its laws, every notification that OtaDaemon sends becomes the message
  -- that it stands for: the end of the download, the request to clear, the result of the update, and the
  -- system status.
  pub notify_lem :
      (properties : Properties) (success : Bool)
      → (notify j properties notification_event (named j (codes "reboot"))
          ≡ some (some (ota_message properties (codes "EVENT_DOWNLOAD") (codes "SUCCESS"))))
        × (notify j properties notification_event (named j (codes "clear"))
            ≡ some (some (ota_message properties (codes "EVENT_CLEAR_MSG") [])))
        × (notify j properties notification_event (result j success)
            ≡ some (
                some (
                  ota_message properties
                    (codes "EVENT_UPGRADE")
                    (if success then codes "SUCCESS" else codes "FAIL"))))
        × (notify j properties notification_event (named j (codes "system_status"))
            ≡ some (some (system_message properties)))
  unfolding message_for
  notify_lem properties success = (
    notify_named properties ((codes "message", text (codes "reboot")) ∷ []) (codes "reboot")
        (no_nul-NulFree (codes "reboot") refl) refl,
    notify_named properties ((codes "message", text (codes "clear")) ∷ []) (codes "clear")
        (no_nul-NulFree (codes "clear") refl) refl,
    notify_named properties results (codes "result") (no_nul-NulFree (codes "result") refl) refl
        ∙ rw (read_bool j laws results (codes "is_success") success refl) refl,
    notify_named properties ((codes "message", text (codes "system_status")) ∷ [])
        (codes "system_status") (no_nul-NulFree (codes "system_status") refl) refl,
  )
    where
      results : List (List ℕ × Value)
      results =
          (codes "is_success", boolean success) ∷ (codes "message", text (codes "result")) ∷ []

  -- What the listener reports of a download that has not ended well, where the misc partition has pages of
  -- 544 bytes or more and can be read and written, with a JSON library that keeps its laws: at the start
  -- and after a failure neither the boot loader nor the recovery finds a command any more, one
  -- notification is sent, and it becomes the message for the home application to clear its own; after a
  -- failure the cache directory is cleaned as well, as far as its files can be removed; a retry changes nothing.
  pub on_event-on_failed-Holds :
      (removed : List ℕ → Bool) (properties : Properties) (mtd : Mtd) (w : World) (width : ℕ)
      (old : List ℕ)
      → mtd.found ≡ some width
      → mtd.contents ≡ some old
      → length old ≡ width * 3
      → 544 ≤ width
      → mtd.opens ≡ true
      → mtd.takes ≡ width * 3
      → mtd.finishes ≡ true
      → (new : List ℕ) × (sent : List ℕ) × (on_event j removed mtd w download_event (on_start j)
          ≡ some (record w {
            stored = w.stored ++ stores new ∷ [];
            notified = w.notified ++ sent ∷ [];
          }))
        × (on_event j removed mtd w download_event (on_failed j)
            ≡ some (record w {
              files = clean_dir removed w.files cache_root;
              stored = w.stored ++ stores new ∷ [];
              notified = w.notified ++ sent ∷ [];
            }))
        × (on_event j removed mtd w download_event (on_retry j) ≡ some w)
        × Holds width old new [] []
        × (notify j properties notification_event sent
            ≡ some (some (ota_message properties (codes "EVENT_CLEAR_MSG") [])))
  on_event-on_failed-Holds removed properties mtd w width old found contents size large opens takes
        finishes =
      let (new, written, holds) =
        clear_recovery_command-Holds mtd width old found contents size large opens takes finishes in
      (
        new,
        named j (codes "clear"),
        on_event-on_start removed mtd w ∙ rw written refl,
        on_event-on_failed removed mtd w ∙ rw written refl,
        on_event-on_retry removed mtd w,
        holds,
        (notify_lem properties true).1,
      )

  IsText-NulFree : (xs : List ℕ) → IsText xs → NulFree xs
  IsText-NulFree [] h = tt
  IsText-NulFree (x ∷ xs) h = (h.0, IsText-NulFree xs h.1)

  -- A download that ends well, to a path without a NUL of at most 229 characters, where the misc partition
  -- has pages of 544 bytes or more and can be read and written, with a JSON library that keeps its laws: the
  -- partition then tells the boot loader to start the recovery and tells the recovery to install that
  -- very file, one notification is sent, and it becomes the message for the home application that the
  -- download succeeded.
  pub on_event-on_success-Holds :
      (removed : List ℕ → Bool) (properties : Properties) (mtd : Mtd) (w : World) (path : List ℕ)
      (width : ℕ) (old : List ℕ)
      → IsText path
      → length path < 230
      → mtd.found ≡ some width
      → mtd.contents ≡ some old
      → length old ≡ width * 3
      → 544 ≤ width
      → mtd.opens ≡ true
      → mtd.takes ≡ width * 3
      → mtd.finishes ≡ true
      → (new : List ℕ) × (sent : List ℕ) × (on_event j removed mtd w download_event
            (on_success j path)
          ≡ some (record w {
            stored = w.stored ++ stores new ∷ [];
            notified = w.notified ++ sent ∷ [];
          }))
        × Holds width old new (codes "boot-recovery") (recovery_text path false)
        × (notify j properties notification_event sent
            ≡ some (some (ota_message properties (codes "EVENT_DOWNLOAD") (codes "SUCCESS"))))
  on_event-on_success-Holds removed properties mtd w path width old plain short found contents size
        large opens takes finishes =
      let (new, written, holds) =
        write_recovery_command-Holds mtd path false width old (IsText-NulFree path plain)
          (omega arith) found contents size large opens takes finishes in
      (
        new,
        named j (codes "reboot"),
        on_event-on_success removed mtd w path plain ∙ rw written refl,
        holds,
        (notify_lem properties true).0,
      )
