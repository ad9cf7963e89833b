-- ===== src/Download.antt =====
-- ffos/ota/src/download/Downloader.cpp: checking the size, downloading with resumption, the retries.
-- The program keeps sizes in doubles; they are numbers of bytes, which a double holds exactly up to
-- 2 ^ 53, and the -1 for an unknown size is `none`. What curl and the file system answer is a
-- parameter of each call.
mod Tests
pub mod Retries
pub mod Sizes
pub mod Outcome
pub mod GivingUp
use code_snippet.Common.{
  ℕ, zero, suc, ◌+◌, ◌*◌, List, [], ◌∷◌, ◌++◌, Bool, true, false, ◌&&◌, ◌||◌, Option, none, some,
  ltb, leb, ◌==◌, if◌then◌else◌, codes,
}
use code_snippet.Md5.Context.{Md5}
use code_snippet.Md5.Checksum.{md5_checksum}

pub record DownloadTask : Type 0 where
  pub url : List ℕ
  pub download_path : List ℕ
  pub md5 : List ℕ
  pub file_size : ℕ
  pub progress : ℕ
  pub breakpoint : ℕ

-- The calls of the listener, the cache writes and the sleeps, in the order in which they are made.
pub data Call : Type 0 where
  on_start on_success : Call
  on_failed : List ℕ → Call
  on_retry : ℕ → Call
  on_progress : ℕ → ℕ → Call
  cache_self : DownloadTask → Call
  sleep : ℕ → Call

-- One request of the size: curl_easy_init, curl_easy_perform and curl_easy_getinfo.
pub record SizeReply : Type 0 where
  pub initialised : Bool
  pub performed : Bool
  pub response_code : ℕ
  pub content_length : Option ℕ

unfoldable pub require_file_size : SizeReply → Option ℕ
require_file_size r =
    if r.initialised
    then (if r.performed && r.response_code == 200 then r.content_length else none)
    else none

abbrev pub download_retry_times : ℕ
download_retry_times = 10

abbrev pub download_retry_interval : ℕ
download_retry_interval = 5

abbrev pub is_positive : Option ℕ → Bool
is_positive none = false
is_positive (some n) = ltb 0 n

abbrev pub size_is : Option ℕ → ℕ → Bool
size_is none n = false
size_is (some m) n = n == m

-- checkDownloadTask, from retry `counter` on with that many rounds left in the fuel.
unfoldable pub check_loop : ℕ → (ℕ → SizeReply) → ℕ → ℕ → Option Bool × List Call
unfolding require_file_size
check_loop zero replies file_size counter = (none, [])
check_loop (suc fuel) replies file_size counter =
    let size = require_file_size (replies counter) in
    let (result, calls) = check_loop fuel replies file_size (counter + 1) in
    if is_positive size
    then (some (size_is size file_size), [])
    else if ltb (counter + 1) download_retry_times
    then (result, sleep ((counter + 1) * download_retry_interval) ∷ calls)
    else (some false, sleep ((counter + 1) * download_retry_interval) ∷ [])

unfoldable pub check_download_task : (ℕ → SizeReply) → DownloadTask → Option Bool × List Call
unfolding check_loop
check_download_task replies task = check_loop download_retry_times replies task.file_size 0

-- One transfer: curl_easy_init, fopen, the progress callbacks (total, now), the results.
pub record Transfer : Type 0 where
  pub initialised : Bool
  pub opened : Bool
  pub reports : List (ℕ × ℕ)
  pub performed : Bool
  pub response_code : ℕ
  pub content_length : Option ℕ

-- onDownloadProgress for each report.
unfoldable pub report_progress : DownloadTask → List (ℕ × ℕ) → DownloadTask × List Call
report_progress task [] = (task, [])
report_progress task ((total, now) ∷ reports) =
    let task' = record task { progress = task.breakpoint + now } in
    let (last, calls) = report_progress task' reports in
    (last, cache_self task' ∷ on_progress total now ∷ calls)

-- `GetFileSize() == size + breakpoint`, with -1 for an unknown size.
abbrev pub is_complete : ℕ → Option ℕ → ℕ → Bool
is_complete file_size none breakpoint = file_size + 1 == breakpoint
is_complete file_size (some size) breakpoint = file_size == size + breakpoint

abbrev pub is_good : DownloadTask → Transfer → Bool
is_good task t =
    t.performed
    && ((t.response_code == 200 || t.response_code == 206)
        && is_complete task.file_size t.content_length task.breakpoint)

-- download(), from the call of fopen on; the break point has been set.
unfoldable pub transfer_file : DownloadTask → Transfer → DownloadTask × Bool × List Call
unfolding report_progress
transfer_file task t =
    let (last, calls) = report_progress task t.reports in
    if t.opened then (last, is_good task t, on_start ∷ calls) else (task, false, [])

unfoldable pub download : DownloadTask → Transfer → DownloadTask × Bool × List Call
unfolding transfer_file
download task t =
    if t.initialised
    then (if task.progress == task.file_size
        then (task, true, [])
        else transfer_file (record task { breakpoint = task.progress }) t)
    else (task, false, [])

-- What an attempt meets: the transfer, and the content of the file afterwards.
pub record Attempt : Type 0 where
  pub transfer : Transfer
  pub file : Option (List ℕ)

pub record RunResult : Type 0 where
  pub task : DownloadTask
  pub ended : Bool
  pub calls : List Call

abbrev pub after_calls : List Call → RunResult → RunResult
after_calls calls r = record r { calls = calls ++ r.calls }

abbrev pub end_with : DownloadTask → List Call → RunResult
end_with task calls = record { task = task; ended = true; calls = calls }

-- The `do … while (retryCounter <= DOWNLOAD_RETRY_TIMES)` of Run; the first argument is the memory
-- of the MD5 object, the second the fuel.
unfoldable pub retry_loop : Md5 → ℕ → (ℕ → Attempt) → ℕ → DownloadTask → RunResult
unfolding download
retry_loop memory zero attempts counter task = record { task = task; ended = false; calls = [] }
retry_loop memory (suc fuel) attempts counter task =
    let (task', done, calls) = download task (attempts counter).transfer in
    let rest = retry_loop memory fuel attempts (counter + 1) task' in
    if done && md5_checksum memory (attempts counter).file task'.md5
    then end_with task' (calls ++ on_success ∷ [])
    else let waiting =
        calls ++ on_retry (counter + 1) ∷ sleep ((counter + 1) * download_retry_interval) ∷ [] in
      if leb (counter + 1) download_retry_times
      then after_calls waiting rest
      else end_with task' (waiting ++ on_failed (codes "download failed!") ∷ [])

-- Downloader::Run, once the task and the listener have been set.
unfoldable pub run : Md5 → (ℕ → SizeReply) → (ℕ → Attempt) → DownloadTask → RunResult
unfolding check_download_task retry_loop
run memory replies attempts task =
    let (checked, calls) = check_download_task replies task in
    elim checked [
      | some true ↦ after_calls calls (retry_loop memory (download_retry_times + 1) attempts 0 task)
      | some false ↦ end_with task (calls ++ on_failed (codes "checkDownloadTask() failed.") ∷ [])
      | none ↦ record { task = task; ended = false; calls = calls }
    ]
