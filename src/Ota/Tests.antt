-- ===== src/Ota/Tests.antt =====
-- Runs on concrete inputs, with a small JSON library.
use code_snippet.Common.{
  ℕ, ◌*◌, ◌≡◌, refl, List, Bool, [], ◌∷◌, ◌++◌, true, false, none, some, arith, if◌then◌else◌,
  replicate, length-replicate, codes, text_eq,
}
use code_snippet.Json.Sample.{sample, sample-Laws}
use code_snippet.Files.{Files, is_file_exist, clean_dir}
use code_snippet.Task.{cache_root}
use code_snippet.Message.{Properties, ota_message}
use code_snippet.Recovery.{Mtd, stores, update_suc, update_err}
use code_snippet.Socket.Nul.{no_nul-NulFree}
use code_snippet.Recovery.Fields.{Holds}
use code_snippet.Recovery.Misc.{recovery_text}
use code_snippet.Ota.{
  download_event, notification_event, World, Removals, on_start, on_failed, on_success, on_retry,
  on_event, notify, check_last_update,
}
use code_snippet.Ota.Updates.{reports, is_left, check_last_update_lem}
use code_snippet.Event.{do_loop_round}
use code_snippet.Ota.Wiring.{ready, register_targets-deliveries}
use code_snippet.Ota.Chain.{on_event-on_failed-Holds, on_event-on_success-Holds}

abbrev pages : List ℕ
pages = replicate (544 * 3) 255

abbrev misc : Mtd
misc = record {
  found = some 544;
  contents = some pages;
  opens = true;
  takes = 544 * 3;
  finishes = true;
}

abbrev properties : Properties
properties = record { get = λ k d. d }

abbrev only_suc : Files
only_suc path = if text_eq path update_suc then some [] else none

abbrev at_start : World
at_start = record { files = only_suc; stored = []; notified = [] }

-- The file of the success cannot be removed at the first start.
abbrev locked : Removals
locked = record { file_removed = λ path. false; cleaned_after = λ success path. true }

abbrev all_removed : List ℕ → Bool
all_removed path = true

abbrev free : Removals
free = record { file_removed = all_removed; cleaned_after = λ success. all_removed }

check_last_update_example :
    ((check_last_update sample locked at_start).notified
      ≡ []
        ++ reports sample (is_file_exist only_suc update_suc) (is_file_exist only_suc update_err))
    × (is_file_exist (check_last_update sample locked at_start).files update_suc
        ≡ is_left only_suc locked update_suc)
    × (is_file_exist (check_last_update sample locked at_start).files update_err
        ≡ is_left only_suc locked update_err)
    × ((check_last_update sample free (check_last_update sample locked at_start)).notified
        ≡ (check_last_update sample locked at_start).notified
          ++ reports sample
              (is_left only_suc locked update_suc)
              (is_left only_suc locked update_err))
check_last_update_example = check_last_update_lem sample locked free at_start

on_failed_example :
    (new : List ℕ) × (sent : List ℕ) × (on_event sample all_removed misc at_start download_event
        (on_start sample)
      ≡ some (record at_start { stored = stores new ∷ []; notified = sent ∷ [] }))
    × (on_event sample all_removed misc at_start download_event (on_failed sample)
        ≡ some (record at_start {
          files = clean_dir all_removed only_suc cache_root;
          stored = stores new ∷ [];
          notified = sent ∷ [];
        }))
    × (on_event sample all_removed misc at_start download_event (on_retry sample) ≡ some at_start)
    × Holds 544 pages new [] []
    × (notify sample properties notification_event sent
        ≡ some (some (ota_message properties (codes "EVENT_CLEAR_MSG") [])))
on_failed_example =
    on_event-on_failed-Holds sample sample-Laws all_removed properties misc at_start 544 pages refl
      refl (length-replicate {A = ℕ} (544 * 3) 255) (omega arith) refl refl refl

on_success_example :
    (new : List ℕ) × (sent : List ℕ) × (on_event sample all_removed misc at_start download_event
        (on_success sample (codes "/u.zip"))
      ≡ some (record at_start { stored = stores new ∷ []; notified = sent ∷ [] }))
    × Holds 544 pages new (codes "boot-recovery") (recovery_text (codes "/u.zip") false)
    × (notify sample properties notification_event sent
        ≡ some (some (ota_message properties (codes "EVENT_DOWNLOAD") (codes "SUCCESS"))))
on_success_example =
    on_event-on_success-Holds sample sample-Laws all_removed properties misc at_start
      (codes "/u.zip") 544 pages (no_nul-NulFree (codes "/u.zip") refl) (omega arith) refl refl
      (length-replicate {A = ℕ} (544 * 3) 255) (omega arith) refl refl refl

register_targets_example :
    (do_loop_round
        (ready [] 1 2 3 (record { type = download_event; message = codes "m"; sender_id = 1 } ∷ []))
      ≡ some (
        ready [] 1 2 3 [],
        record { handler = 2; type = download_event; message = codes "m" } ∷ [],
      ))
    × (do_loop_round (
          ready [] 1 2 3
            (record { type = notification_event; message = codes "m"; sender_id = 2 } ∷ []))
        ≡ some (
          ready [] 1 2 3 [],
          record { handler = 3; type = notification_event; message = codes "m" } ∷ [],
        ))
register_targets_example =
    register_targets-deliveries [] 1 2 3 (omega arith) (omega arith) (omega arith) (codes "m") []
