-- ===== src/Check/Tests.antt =====
-- A round on concrete inputs, with a small JSON library.
use code_snippet.Common.{
  ℕ, ◌<◌, ◌≡◌, refl, List, Bool, [], ◌∷◌, ◌++◌, true, false, none, some, arith, codes, replicate,
}
use code_snippet.Json.{get_string, get_double}
use code_snippet.Json.Sample.{sample}
use code_snippet.Json.Objects.{build}
use code_snippet.Utf8.{get_file_name_from_url}
use code_snippet.Files.{Files, is_file_exist, clean_dir}
use code_snippet.Socket.Framing.{c_str}
use code_snippet.Md5.Rounds.{transform}
use code_snippet.Md5.Context.{Md5, initial}
use code_snippet.Md5.Checksum.{md5_checksum}
use code_snippet.Download.{DownloadTask, SizeReply, Attempt, RunResult, run}
use code_snippet.Download.Retries.{count, successes}
use code_snippet.Task.{
  cache_root, load_result, task_in_metadata, load, load_from_cache, new_task, create_download_task,
}
use code_snippet.Check.{Chunk, Exchange, post_request, downloads, run_once}
use code_snippet.Check.Answer.{Assured, run_once-Assured}

abbrev memory : Md5
memory = record {
  state = initial;
  count0 = 0;
  count1 = 0;
  buffer = replicate 64 0;
  digest_bytes = replicate 16 0;
  finished = false;
}

abbrev replies : ℕ → SizeReply
replies k = record {
  initialised = true;
  performed = true;
  response_code = 200;
  content_length = some 3;
}

abbrev attempts : ℕ → Attempt
attempts k = record {
  transfer = record {
    initialised = true;
    opened = true;
    reports = (3, 3) ∷ [];
    performed = true;
    response_code = 206;
    content_length = some 3;
  };
  file = some (codes "abc");
}

abbrev abc_sum : List ℕ
abc_sum = codes "900150983cd24fb0d6963f7d28e17f72"

abbrev reply : List ℕ
reply = sample.print (
    build sample (
      (codes "url", sample.text (codes "h/a"))
      ∷ (codes "md5", sample.text abc_sum)
      ∷ (codes "size", sample.number 3)
      ∷ (codes "status", sample.number 1)
      ∷ (codes "code", sample.text (codes "ok"))
      ∷ []))

abbrev whole : List Chunk
whole = record { received = reply; beyond = 0 ∷ [] } ∷ []

abbrev exchange : Exchange
exchange = record { initialised = true; chunks = whole }

abbrev all_removed : List ℕ → Bool
all_removed path = true

abbrev no_files : Files
no_files path = none

abbrev abc_task : DownloadTask
abc_task = record {
  url = codes "h/a";
  download_path = cache_root ++ codes "a";
  md5 = abc_sum;
  file_size = 3;
  progress = 0;
  breakpoint = 0;
}

abbrev ended_run : RunResult
ended_run = run memory replies attempts abc_task

succeeds : 0 < count successes ended_run.calls
unfolding run md5_checksum transform
succeeds = omega arith

abbrev cleaned : Files
cleaned = clean_dir all_removed no_files cache_root

happens :
    run_once sample memory all_removed no_files exchange true replies attempts
    ≡ some (downloads cleaned abc_task ended_run)
unfolding run_once post_request c_str load_result create_download_task load_from_cache is_file_exist
    new_task load task_in_metadata get_string get_double get_file_name_from_url
happens = refl

run_once_example :
    (answer : sample.Value) × Assured sample memory all_removed no_files cleaned exchange true
      replies attempts abc_task ended_run answer
run_once_example =
    run_once-Assured sample memory all_removed no_files cleaned exchange true replies attempts
      abc_task ended_run happens succeeds
