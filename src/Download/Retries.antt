-- ===== src/Download/Retries.antt =====
-- How a run of the downloader ends.
use code_snippet.Common.{
  ℕ, zero, suc, ◌+◌, ◌*◌, ◌≤◌, ◌≡◌, refl, inl, inr, List, [], ◌∷◌, ◌++◌, Bool, true, ◌&&◌, arith,
  leb, if◌then◌else◌, codes, Bool-cases, leb→le,
}
use code_snippet.Md5.Context.{Md5}
use code_snippet.Md5.Checksum.{md5_checksum}
use code_snippet.Download.{
  DownloadTask, Call, on_start, on_success, on_failed, on_retry, sleep, download, transfer_file,
  report_progress, Attempt, Transfer, RunResult, after_calls, end_with, retry_loop,
}

-- How often a kind of call was made.
abbrev pub count : (Call → ℕ) → List Call → ℕ
count kind [] = 0
count kind (c ∷ cs) = kind c + count kind cs

abbrev pub endings : Call → ℕ
endings on_success = 1
endings (on_failed reason) = 1
endings _ = 0

abbrev pub successes : Call → ℕ
successes on_success = 1
successes _ = 0

abbrev pub starts : Call → ℕ
starts on_start = 1
starts _ = 0

abbrev pub retries : Call → ℕ
retries (on_retry n) = 1
retries _ = 0

pub count-append :
    (kind : Call → ℕ) (cs ds : List Call) → count kind (cs ++ ds) ≡ count kind cs + count kind ds
count-append kind [] ds = omega arith
count-append kind (c ∷ cs) ds = omega (arith, count-append kind cs ds)

-- What every download keeps, and what it may report.
pub record Quiet (task : DownloadTask) (d : DownloadTask × Bool × List Call) : Type 0 where
  pub same_md5 : d.0.md5 ≡ task.md5
  pub same_size : d.0.file_size ≡ task.file_size
  pub no_end : count endings d.2 ≡ 0
  pub no_success : count successes d.2 ≡ 0
  pub no_retry : count retries d.2 ≡ 0
  pub one_start : count starts d.2 ≤ 1

-- The progress reports alone.
record Reported (task : DownloadTask) (d : DownloadTask × List Call) : Type 0 where
  same_md5 : d.0.md5 ≡ task.md5
  same_size : d.0.file_size ≡ task.file_size
  no_end : count endings d.1 ≡ 0
  no_success : count successes d.1 ≡ 0
  no_retry : count retries d.1 ≡ 0
  no_start : count starts d.1 ≡ 0

report_progress-Reported :
    (task : DownloadTask) (reports : List (ℕ × ℕ)) → Reported task (report_progress task reports)
unfolding report_progress
report_progress-Reported task [] = record {
  same_md5 = refl;
  same_size = refl;
  no_end = refl;
  no_success = refl;
  no_retry = refl;
  no_start = refl;
}
report_progress-Reported task ((total, now) ∷ reports) =
    let ih = report_progress-Reported (record task { progress = task.breakpoint + now }) reports in
    record {
      same_md5 = ih.same_md5;
      same_size = ih.same_size;
      no_end = omega (arith, ih.no_end);
      no_success = omega (arith, ih.no_success);
      no_retry = omega (arith, ih.no_retry);
      no_start = omega (arith, ih.no_start);
    }

transfer_file-Quiet : (task : DownloadTask) (t : Transfer) → Quiet task (transfer_file task t)
unfolding transfer_file
transfer_file-Quiet task t = ground (arith, report_progress-Reported task t.reports)

pub download-Quiet : (task : DownloadTask) (t : Transfer) → Quiet task (download task t)
unfolding download
download-Quiet task t =
    ground (arith, transfer_file-Quiet (record task { breakpoint = task.progress }) t)

-- How the loop ends, from its round `counter` on.
pub record Bounded (counter : ℕ) (r : RunResult) : Type 0 where
  pub ended : r.ended ≡ true
  pub one_end : count endings r.calls ≡ 1
  pub few_retries : count retries r.calls + counter ≤ 11
  pub few_starts : count starts r.calls + counter ≤ 11

unfoldable pub waiting_calls : ℕ → List Call
waiting_calls counter = on_retry (counter + 1) ∷ sleep ((counter + 1) * 5) ∷ []

-- The loop makes at most 11 rounds, so fuel for those is enough.
pub retry_loop-Bounded :
    (memory : Md5) (fuel : ℕ) (attempts : ℕ → Attempt) (counter : ℕ) (task : DownloadTask)
    → counter ≤ 10
    → 11 ≤ fuel + counter
    → Bounded counter (retry_loop memory fuel attempts counter task)
unfolding retry_loop waiting_calls
retry_loop-Bounded memory zero attempts counter task low enough = absurd (omega arith)
retry_loop-Bounded memory (suc fuel) attempts counter task low enough = elim (Bool-cases good) [
  | inl h ↦ rw h (record {
    ended = refl;
    one_end = omega (arith, count-append endings d.2 (on_success ∷ []), q.no_end);
    few_retries = omega (arith, count-append retries d.2 (on_success ∷ []), q.no_retry);
    few_starts = omega (arith, count-append starts d.2 (on_success ∷ []), q.one_start);
  })
  | inr h ↦
      rw h (
        again
          (λ more. retry_loop-Bounded memory fuel attempts (counter + 1) d.0 more (omega arith)))
]
  where
    d : DownloadTask × Bool × List Call
    d = download task (attempts counter).transfer

    q : Quiet task d
    q = download-Quiet task (attempts counter).transfer

    good : Bool
    good = d.1 && md5_checksum memory (attempts counter).file d.0.md5

    waiting : List Call
    waiting = d.2 ++ waiting_calls counter

    rest : RunResult
    rest = retry_loop memory fuel attempts (counter + 1) d.0

    again :
        (counter + 1 ≤ 10 → Bounded (counter + 1) rest)
        → Bounded counter (
            if leb (counter + 1) 10
            then after_calls waiting rest
            else end_with d.0 (waiting ++ on_failed (codes "download failed!") ∷ []))
    again later = elim (Bool-cases (leb (counter + 1) 10)) [
      | inl more ↦
          let ih = later (leb→le _ _ more) in
          rw more (record {
            ended = ih.ended;
            one_end = omega (
              arith,
              ih.one_end,
              q.no_end,
              count-append endings d.2 (waiting_calls counter),
              count-append endings waiting rest.calls,
            );
            few_retries = omega (
              arith,
              ih.few_retries,
              q.no_retry,
              count-append retries d.2 (waiting_calls counter),
              count-append retries waiting rest.calls,
            );
            few_starts = omega (
              arith,
              ih.few_starts,
              q.one_start,
              count-append starts d.2 (waiting_calls counter),
              count-append starts waiting rest.calls,
            );
          })
      | inr last ↦
          let failure = on_failed (codes "download failed!") ∷ [] in
          rw last (record {
            ended = refl;
            one_end = omega (
              arith,
              q.no_end,
              count-append endings d.2 (waiting_calls counter),
              count-append endings waiting failure,
            );
            few_retries = omega (
              arith,
              q.no_retry,
              count-append retries d.2 (waiting_calls counter),
              count-append retries waiting failure,
            );
            few_starts = omega (
              arith,
              q.one_start,
              count-append starts d.2 (waiting_calls counter),
              count-append starts waiting failure,
            );
          })
    ]
