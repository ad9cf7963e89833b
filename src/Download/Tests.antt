-- ===== src/Download/Tests.antt =====
-- Runs of the downloader on concrete inputs.
use code_snippet.Common.{ℕ, ◌<◌, refl, List, [], ◌∷◌, true, false, some, arith, codes, replicate}
use code_snippet.Md5.Rounds.{transform}
use code_snippet.Md5.Context.{Md5, initial}
use code_snippet.Md5.Checksum.{md5_checksum}
use code_snippet.Download.{DownloadTask, SizeReply, require_file_size, Attempt, run}
use code_snippet.Download.Retries.{count, successes, Bounded}
use code_snippet.Download.Sizes.{FirstSize}
use code_snippet.Download.Outcome.{Verified, run-Bounded, run-Verified}
use code_snippet.Download.GivingUp.{Stuck, GivesUp, run-GivesUp}

abbrev memory : Md5
memory = record {
  state = initial;
  count0 = 0;
  count1 = 0;
  buffer = replicate 64 0;
  digest_bytes = replicate 16 0;
  finished = false;
}

-- The server answers with the size 3.
abbrev replies : ℕ → SizeReply
replies k = record {
  initialised = true;
  performed = true;
  response_code = 200;
  content_length = some 3;
}

abbrev task_with : List ℕ → ℕ → DownloadTask
task_with checksum progress = record {
  url = codes "http://host/abc";
  download_path = codes "/mnt/sdcard/fota/abc";
  md5 = checksum;
  file_size = 3;
  progress = progress;
  breakpoint = 0;
}

abbrev abc_sum : List ℕ
abc_sum = codes "900150983cd24fb0d6963f7d28e17f72"

-- Every transfer brings the file `abc`.
abbrev attempts : ℕ → Attempt
attempts k = record {
  transfer = record {
    initialised = true;
    opened = true;
    reports = (3, 3) ∷ [];
    performed = true;
    response_code = 200;
    content_length = some 3;
  };
  file = some (codes "abc");
}

run-Bounded_example : Bounded 0 (run memory replies attempts (task_with abc_sum 0))
run-Bounded_example = run-Bounded memory replies attempts (task_with abc_sum 0)

succeeds : 0 < count successes (run memory replies attempts (task_with abc_sum 0)).calls
unfolding run md5_checksum transform
succeeds = omega arith

run-Verified_example : FirstSize replies 0 3 × Verified memory attempts abc_sum
run-Verified_example = run-Verified memory replies attempts (task_with abc_sum 0) succeeds

first : FirstSize replies 0 3
unfolding require_file_size
first = record {
  request = 0;
  late = omega arith;
  early = omega arith;
  the_size = refl;
  not_empty = omega arith;
  before = λ j from to. absurd (omega arith);
}

stuck : Stuck memory attempts (task_with (codes "other") 3)
unfolding md5_checksum transform
stuck = record { full = refl; unchanged = λ k. refl; wrong = refl }

run-GivesUp_example : GivesUp 0 (run memory replies attempts (task_with (codes "other") 3))
run-GivesUp_example = run-GivesUp memory replies attempts (task_with (codes "other") 3) first stuck
