-- ===== src/Download/Outcome.antt =====
-- What a whole run of the downloader reports.
use code_snippet.Common.{
  ℕ, zero, suc, ◌+◌, ◌≤◌, ◌<◌, ◌≡◌, ◌≢◌, refl, sym, ap, subst, ◌∙◌, inl, inr, List, [], ◌∷◌, ◌++◌,
  Bool, true, false, ◌&&◌, Option, none, arith, leb, codes, Bool-cases, Option-cases, leb→le,
}
use code_snippet.Md5.Context.{Md5}
use code_snippet.Md5.Checksum.{md5_checksum}
use code_snippet.Download.{
  DownloadTask, Call, on_failed, sleep, download, Attempt, RunResult, after_calls, end_with,
  retry_loop, run, SizeReply, check_download_task,
}
use code_snippet.Download.Retries.{
  count, endings, successes, starts, retries, count-append, Quiet, download-Quiet, Bounded,
  retry_loop-Bounded, waiting_calls,
}
use code_snippet.Download.Sizes.{FirstSize, Checked, check_download_task-Checked}

-- A run that comes out of the check with `calls`, which the counts do not see.
after_check :
    (calls : List Call) (r : RunResult)
    → count endings calls ≡ 0
    → count retries calls ≡ 0
    → count starts calls ≡ 0
    → Bounded 0 r
    → Bounded 0 (after_calls calls r)
after_check calls r e t s b = record {
  ended = b.ended;
  one_end = omega (arith, count-append endings calls r.calls, e, b.one_end);
  few_retries = omega (arith, count-append retries calls r.calls, t, b.few_retries);
  few_starts = omega (arith, count-append starts calls r.calls, s, b.few_starts);
}

refused :
    (task : DownloadTask) (reason : List ℕ) → Bounded 0 (end_with task (on_failed reason ∷ []))
refused task reason = record {
  ended = refl;
  one_end = refl;
  few_retries = omega arith;
  few_starts = omega arith;
}

-- Run always ends, whatever the requests, the transfers and the files are: it makes exactly one of
-- the calls onSuccess and onFailed, at most 11 calls of onRetry, and at most 11 of onStart.
pub run-Bounded :
    (memory : Md5) (replies : ℕ → SizeReply) (attempts : ℕ → Attempt) (task : DownloadTask)
    → Bounded 0 (run memory replies attempts task)
unfolding run
run-Bounded memory replies attempts task = elim (Option-cases c.0) [
  | inl never ↦ absurd (finished never)
  | inr (true, passed) ↦
      rw (run, passed)
        (after_check c.1 _ (silent endings (λ n. refl)) (silent retries (λ n. refl))
          (silent starts (λ n. refl))
          (retry_loop-Bounded memory 11 attempts 0 task (omega arith) (omega arith)))
  | inr (false, failed) ↦
      rw (run, failed)
        (after_check c.1 _ (silent endings (λ n. refl)) (silent retries (λ n. refl))
          (silent starts (λ n. refl)) (refused task _))
]
  where
    c : Option Bool × List Call
    c = check_download_task replies task

    finished : c.0 ≢ none
    finished = (check_download_task-Checked replies task).finished

    silent : (kind : Call → ℕ) → ((n : ℕ) → kind (sleep n) ≡ 0) → count kind c.1 ≡ 0
    silent = (check_download_task-Checked replies task).silent

-- An attempt whose file has the checksum.
abbrev pub Verified : Md5 → (ℕ → Attempt) → List ℕ → Type 0
Verified memory attempts checksum =
    (k : ℕ) × (k ≤ 10 × md5_checksum memory (attempts k).file checksum ≡ true)

and_true : (a b : Bool) → a && b ≡ true → (a ≡ true) × (b ≡ true)
and_true true b h = (refl, h)
and_true false b h = (h, cc h)

retry_loop-Verified :
    (memory : Md5) (fuel : ℕ) (attempts : ℕ → Attempt) (counter : ℕ) (task : DownloadTask)
    → counter ≤ 10
    → 0 < count successes (retry_loop memory fuel attempts counter task).calls
    → Verified memory attempts task.md5
unfolding retry_loop waiting_calls
retry_loop-Verified memory zero attempts counter task low success = absurd (omega arith)
retry_loop-Verified memory (suc fuel) attempts counter task low success =
    elim (Bool-cases (d.1 && accepted d.0.md5)) [
      | inl h ↦ (counter, (low, ap accepted (sym q.same_md5) ∙ (and_true d.1 _ h).1))
      | inr h ↦ elim (Bool-cases (leb (counter + 1) 10)) [
        | inl more ↦ subst (Verified memory attempts) q.same_md5 (
            retry_loop-Verified memory fuel attempts (counter + 1) d.0 (leb→le _ _ more) (
              omega (
                arith,
                q.no_success,
                count-append successes d.2 (waiting_calls counter),
                count-append successes waiting rest.calls,
                rw more at (rw h at success),
              )))
        | inr last ↦ absurd (
            omega (
              arith,
              q.no_success,
              count-append successes d.2 (waiting_calls counter),
              count-append successes waiting failure,
              rw last at (rw h at success),
            ))
      ]
    ]
  where
    d : DownloadTask × Bool × List Call
    d = download task (attempts counter).transfer

    q : Quiet task d
    q = download-Quiet task (attempts counter).transfer

    accepted : List ℕ → Bool
    accepted checksum = md5_checksum memory (attempts counter).file checksum

    waiting : List Call
    waiting = d.2 ++ waiting_calls counter

    rest : RunResult
    rest = retry_loop memory fuel attempts (counter + 1) d.0

    failure : List Call
    failure = on_failed (codes "download failed!") ∷ []

-- Run calls onSuccess only for a verified file of a checked size: the task's size is the first
-- positive one that the first ten requests get, and the file that one of the first eleven attempts
-- leaves has the task's checksum.
pub run-Verified :
    (memory : Md5) (replies : ℕ → SizeReply) (attempts : ℕ → Attempt) (task : DownloadTask)
    → 0 < count successes (run memory replies attempts task).calls
    → FirstSize replies 0 task.file_size × Verified memory attempts task.md5
unfolding run
run-Verified memory replies attempts task success = elim (Option-cases c.0) [
  | inl never ↦ absurd (known.finished never)
  | inr (true, passed) ↦ (
    known.verdict.0 passed,
    retry_loop-Verified memory 11 attempts 0 task (omega arith) (
        omega (
          arith,
          silent,
          count-append successes c.1 (retry_loop memory 11 attempts 0 task).calls,
          rw (count, passed) at success,
        )),
  )
  | inr (false, failed) ↦ absurd (
      omega (
        arith,
        silent,
        count-append successes c.1 (on_failed (codes "checkDownloadTask() failed.") ∷ []),
        rw (count, failed) at success,
      ))
]
  where
    c : Option Bool × List Call
    c = check_download_task replies task

    known : Checked replies task.file_size 0 c
    known = check_download_task-Checked replies task

    silent : count successes c.1 ≡ 0
    silent = known.silent successes (λ n. refl)
