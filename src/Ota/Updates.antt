-- ===== src/Ota/Updates.antt =====
-- checkLastUpdate: what is reported of the last update, and how often.
use code_snippet.Common.{
  ℕ, ◌≡◌, refl, ap, ◌∙◌, List, [], ◌∷◌, ◌++◌, Bool, true, false, not, ◌&&◌, if◌then◌else◌, Option,
  none, some, codes, append_assoc,
}
use code_snippet.Json.{Json}
use code_snippet.Files.{Files, is_file_exist, delete_file, clean_dir}
use code_snippet.Utf8.{start_with}
use code_snippet.Task.{cache_root}
use code_snippet.Recovery.{
  update_suc, update_err, take_file, is_recovery_success, is_recovery_failed,
}
use code_snippet.Ota.{World, Removals, send_notification, named, result, report, check_last_update}

-- The notifications, by whether the file of a success and the file of a failure are there.
abbrev pub reports : Json → Bool → Bool → List (List ℕ)
reports j true true = result j true ∷ result j false ∷ []
reports j true false = result j true ∷ []
reports j false true = result j false ∷ []
reports j false false = named j (codes "system_status") ∷ []

-- Taking the file of a success and cleaning the cache do not touch the file of a failure.
err_kept :
    (removed : Bool) (cleaned : List ℕ → Bool) (files : Files)
    → is_file_exist (clean_dir cleaned (delete_file removed files update_suc) cache_root) update_err
      ≡ is_file_exist files update_err
unfolding clean_dir delete_file start_with is_file_exist
err_kept removed cleaned files = refl

take_found :
    (removed : List ℕ → Bool) (path : List ℕ) (files : Files)
    → is_file_exist files path ≡ true
    → take_file removed path files ≡ (delete_file (removed path) files path, true)
unfolding take_file
take_found removed path files h = rw h refl

take_missing :
    (removed : List ℕ → Bool) (path : List ℕ) (files : Files)
    → is_file_exist files path ≡ false
    → take_file removed path files ≡ (files, false)
unfolding take_file
take_missing removed path files h = rw h refl

-- What checkLastUpdate leaves.
abbrev taken_suc : Json → Removals → World → World
taken_suc j a w =
    report j a true true
      (record w { files = delete_file (a.file_removed update_suc) w.files update_suc })

abbrev taken_err : Json → Removals → World → World
taken_err j a w =
    report j a true false
      (record w { files = delete_file (a.file_removed update_err) w.files update_err })

abbrev after : Json → Removals → World → Bool → Bool → World
after j a w true true = taken_err j a (taken_suc j a w)
after j a w true false = taken_suc j a w
after j a w false true = taken_err j a w
after j a w false false = send_notification w (named j (codes "system_status"))

check_last_update-after :
    (j : Json) (a : Removals) (w : World) (s e : Bool)
    → is_file_exist w.files update_suc ≡ s
    → is_file_exist w.files update_err ≡ e
    → check_last_update j a w ≡ after j a w s e
unfolding check_last_update is_recovery_success is_recovery_failed
check_last_update-after j a w false false s e =
    rw
      (
        take_missing a.file_removed update_suc w.files s,
        take_missing a.file_removed update_err w.files e,
      )
      refl
check_last_update-after j a w false true s e =
    rw
      (
        take_missing a.file_removed update_suc w.files s,
        take_found a.file_removed update_err w.files e,
      )
      refl
check_last_update-after j a w true false s e =
    rw
      (
        take_found a.file_removed update_suc w.files s,
        take_missing a.file_removed update_err (taken_suc j a w).files
            (err_kept (a.file_removed update_suc) (a.cleaned_after true) w.files ∙ e),
      )
      refl
check_last_update-after j a w true true s e =
    rw
      (
        take_found a.file_removed update_suc w.files s,
        take_found a.file_removed update_err (taken_suc j a w).files
            (err_kept (a.file_removed update_suc) (a.cleaned_after true) w.files ∙ e),
      )
      refl

after-notified :
    (j : Json) (a : Removals) (w : World) (s e : Bool)
    → (after j a w s e).notified ≡ w.notified ++ reports j s e
after-notified j a w false false = refl
after-notified j a w false true = refl
after-notified j a w true false = refl
after-notified j a w true true = append_assoc w.notified (result j true ∷ []) (result j false ∷ [])

-- A file that is there stays exactly if it could not be removed.
stays :
    (removed : Bool) (content : Option (List ℕ))
    → elim content as (λ x. Bool) [ none ↦ false | some c ↦ true ] ≡ true
    → elim (if removed then none else content) as (λ x. Bool) [ none ↦ false | some c ↦ true ]
      ≡ not removed
stays true content there = refl
stays false content there = there

after-left :
    (j : Json) (a : Removals) (w : World) (s e : Bool)
    → is_file_exist w.files update_suc ≡ s
    → is_file_exist w.files update_err ≡ e
    → (is_file_exist (after j a w s e).files update_suc ≡ s && not (a.file_removed update_suc))
      × (is_file_exist (after j a w s e).files update_err ≡ e && not (a.file_removed update_err))
unfolding is_file_exist delete_file clean_dir start_with
after-left j a w false false s e = (s, e)
after-left j a w false true s e = (s, stays (a.file_removed update_err) (w.files update_err) e)
after-left j a w true false s e = (stays (a.file_removed update_suc) (w.files update_suc) s, e)
after-left j a w true true s e = (
  stays (a.file_removed update_suc) (w.files update_suc) s,
  stays (a.file_removed update_err) (w.files update_err) e,
)

-- Whether the files are there after a start that found them or not, and removed them or not.
abbrev pub is_left : Files → Removals → List ℕ → Bool
is_left files answers path = is_file_exist files path && not (answers.file_removed path)

module _ (j : Json) (a : Removals) (w : World) where
  left_suc : is_file_exist (check_last_update j a w).files update_suc ≡ is_left w.files a update_suc
  left_suc =
      ap (λ (u : World). is_file_exist u.files update_suc)
        (check_last_update-after j a w _ _ refl refl)
      ∙ (after-left j a w _ _ refl refl).0

  left_err : is_file_exist (check_last_update j a w).files update_err ≡ is_left w.files a update_err
  left_err =
      ap (λ (u : World). is_file_exist u.files update_err)
        (check_last_update-after j a w _ _ refl refl)
      ∙ (after-left j a w _ _ refl refl).1

  reported :
      (s e : Bool)
      → is_file_exist w.files update_suc ≡ s
      → is_file_exist w.files update_err ≡ e
      → (check_last_update j a w).notified ≡ w.notified ++ reports j s e
  reported s e suc_there err_there =
      ap (λ (u : World). u.notified) (check_last_update-after j a w s e suc_there err_there)
      ∙ after-notified j a w s e

-- Whatever the calls of `remove` and `rm` achieve: checkLastUpdate sends the success if
-- /cache/update.suc is there, the failure if /cache/update.err is there, and the system status exactly if
-- neither is. Each of the files is there afterwards exactly if it was there and could not be removed;
-- and the next start sends again the results whose files could not be removed, and the system status if
-- there is none.
pub check_last_update_lem :
    (j : Json) (answers next : Removals) (w : World)
    → ((check_last_update j answers w).notified
        ≡ w.notified
          ++ reports j (is_file_exist w.files update_suc) (is_file_exist w.files update_err))
      × (is_file_exist (check_last_update j answers w).files update_suc
          ≡ is_left w.files answers update_suc)
      × (is_file_exist (check_last_update j answers w).files update_err
          ≡ is_left w.files answers update_err)
      × ((check_last_update j next (check_last_update j answers w)).notified
          ≡ (check_last_update j answers w).notified
            ++ reports j (is_left w.files answers update_suc) (is_left w.files answers update_err))
check_last_update_lem j answers next w = (
  reported j answers w _ _ refl refl,
  left_suc j answers w,
  left_err j answers w,
  reported j next (check_last_update j answers w) _ _ (left_suc j answers w) (left_err j answers w),
)
