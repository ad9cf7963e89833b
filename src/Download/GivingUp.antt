-- ===== src/Download/GivingUp.antt =====
-- Downloader.cpp: the runs of a task whose file is complete and wrong.
use code_snippet.Common.{
  ℕ, zero, suc, ◌+◌, ◌≤◌, ◌≡◌, refl, ap, ◌∙◌, inl, inr, List, [], Bool, true, false, ◌&&◌, Option,
  some, arith, leb, ==_iff, Bool-cases, leb→le, leb_false→lt,
}
use code_snippet.Md5.Context.{Md5}
use code_snippet.Md5.Checksum.{md5_checksum}
use code_snippet.Download.{
  DownloadTask, Call, sleep, download, Attempt, Transfer, RunResult, retry_loop, run, SizeReply,
  check_download_task,
}
use code_snippet.Download.Retries.{count, successes, starts, retries, count-append, waiting_calls}
use code_snippet.Download.Sizes.{FirstSize, check_download_task-Checked}

-- A task whose progress has reached the file's size, while the file, which nothing but a transfer
-- would change, does not have the checksum.
pub record Stuck (memory : Md5) (attempts : ℕ → Attempt) (task : DownloadTask) : Type 0 where
  pub full : task.progress ≡ task.file_size
  pub unchanged : (k : ℕ) → (attempts k).file ≡ (attempts 0).file
  pub wrong : md5_checksum memory (attempts 0).file task.md5 ≡ false

-- Such a task is left as it is; download says whether it has a curl handle.
download_full :
    (task : DownloadTask) (t : Transfer)
    → task.progress ≡ task.file_size
    → download task t ≡ (task, t.initialised, [])
unfolding download
download_full task t full = elim (Bool-cases t.initialised) [
  | inl works ↦ rw works (rw ((==_iff task.progress task.file_size).1 full) refl)
  | inr broken ↦ rw broken refl
]

and_false : (a b : Bool) → b ≡ false → a && b ≡ false
and_false true b h = h
and_false false b h = refl

-- No attempt of a stuck task is verified.
unverified :
    (memory : Md5) (attempts : ℕ → Attempt) (task : DownloadTask) (k : ℕ)
    → Stuck memory attempts task
    → (attempts k).transfer.initialised && md5_checksum memory (attempts k).file task.md5 ≡ false
unverified memory attempts task k stuck =
    and_false _ _ (
      ap (λ (f : Option (List ℕ)). md5_checksum memory f task.md5) (stuck.unchanged k)
      ∙ stuck.wrong)

-- What the rounds of a stuck task come to.
pub record GivesUp (counter : ℕ) (r : RunResult) : Type 0 where
  pub no_start : count starts r.calls ≡ 0
  pub no_success : count successes r.calls ≡ 0
  pub all_retries : count retries r.calls + counter ≡ 11

retry_loop-GivesUp :
    (memory : Md5) (fuel : ℕ) (attempts : ℕ → Attempt) (counter : ℕ) (task : DownloadTask)
    → Stuck memory attempts task
    → counter ≤ 10
    → 11 ≤ fuel + counter
    → GivesUp counter (retry_loop memory fuel attempts counter task)
unfolding retry_loop waiting_calls
retry_loop-GivesUp memory zero attempts counter task stuck low enough = absurd (omega arith)
retry_loop-GivesUp memory (suc fuel) attempts counter task stuck low enough =
    rw
      (
        download_full task (attempts counter).transfer stuck.full,
        unverified memory attempts task counter stuck,
      )
      (elim (Bool-cases (leb (counter + 1) 10)) [
        | inl more ↦
            let ih =
              retry_loop-GivesUp memory fuel attempts (counter + 1) task stuck (leb→le _ _ more)
                (omega arith) in
            rw more (record {
              no_start = omega (arith, ih.no_start);
              no_success = omega (arith, ih.no_success);
              all_retries = omega (arith, ih.all_retries);
            })
        | inr last ↦ rw last (record {
          no_start = refl;
          no_success = refl;
          all_retries = omega (arith, leb_false→lt _ _ last);
        })
      ])

-- A task whose progress equals its size is not transferred any more. If the first positive size that
-- the first ten requests get is the task's, the file at hand does not have the task's checksum, and
-- nothing else changes the file during the run, Run makes no call of onStart, calls onRetry eleven
-- times and never onSuccess: whether curl can be initialised, and whatever a transfer would bring.
pub run-GivesUp :
    (memory : Md5) (replies : ℕ → SizeReply) (attempts : ℕ → Attempt) (task : DownloadTask)
    → FirstSize replies 0 task.file_size
    → Stuck memory attempts task
    → GivesUp 0 (run memory replies attempts task)
unfolding run
run-GivesUp memory replies attempts task size stuck =
    rw (run, passed)
      (record {
        no_start =
            omega (arith, count-append starts c.1 r.calls, silent starts (λ n. refl), g.no_start);
        no_success =
            omega (
              arith,
              count-append successes c.1 r.calls,
              silent successes (λ n. refl),
              g.no_success,
            );
        all_retries =
            omega
              (arith, count-append retries c.1 r.calls, silent retries (λ n. refl), g.all_retries);
      })
  where
    c : Option Bool × List Call
    c = check_download_task replies task

    passed : c.0 ≡ some true
    passed = (check_download_task-Checked replies task).verdict.1 size

    silent : (kind : Call → ℕ) → ((n : ℕ) → kind (sleep n) ≡ 0) → count kind c.1 ≡ 0
    silent = (check_download_task-Checked replies task).silent

    r : RunResult
    r = retry_loop memory 11 attempts 0 task

    g : GivesUp 0 r
    g = retry_loop-GivesUp memory 11 attempts 0 task stuck (omega arith) (omega arith)
