-- ===== src/Task/Tests.antt =====
-- Tasks on concrete inputs, with a small JSON library.
use code_snippet.Common.{ℕ, List, Bool, ◌≡◌, ◌⊎◌, refl, [], ◌∷◌, none, some, arith, codes, true}
use code_snippet.Json.Sample.{sample, sample-Laws}
use code_snippet.Json.Objects.{build}
use code_snippet.Utf8.{get_file_name_from_url}
use code_snippet.Files.{Files, is_file_exist, clean_dir}
use code_snippet.Download.{DownloadTask}
use code_snippet.Task.{
  cache_root, load_from_cache, task_in_metadata, cache_self, create_download_task,
}
use code_snippet.Task.Cache.{relocated, load_from_cache-cache_self}
use code_snippet.Task.Choice.{Resumed, Fresh, create_download_task_lem}

abbrev half : DownloadTask
half = record {
  url = codes "h/a";
  download_path = codes "x";
  md5 = codes "m";
  file_size = 5;
  progress = 2;
  breakpoint = 0;
}

abbrev all_removed : List ℕ → Bool
all_removed path = true

abbrev no_files : Files
no_files path = none

load_from_cache-cache_self_example :
    load_from_cache sample (cache_self sample true no_files half) ≡ some (some (relocated half))
load_from_cache-cache_self_example =
    load_from_cache-cache_self sample sample-Laws no_files half (omega arith)

abbrev answer : sample.Value
answer = build sample (
    (codes "size", sample.number 5)
    ∷ (codes "md5", sample.text (codes "m"))
    ∷ (codes "url", sample.text (codes "h/a"))
    ∷ [])

abbrev fresh_task : DownloadTask
fresh_task = record {
  url = codes "h/a";
  download_path = codes "/mnt/sdcard/fota/a";
  md5 = codes "m";
  file_size = 5;
  progress = 0;
  breakpoint = 0;
}

made :
    create_download_task sample all_removed no_files answer
    ≡ some (clean_dir all_removed no_files cache_root, some fresh_task)
unfolding create_download_task load_from_cache is_file_exist task_in_metadata get_file_name_from_url
made = refl

create_download_task_example :
    ((clean_dir all_removed no_files cache_root ≡ no_files)
      × Resumed sample no_files answer fresh_task)
    ⊎ Fresh sample all_removed no_files
        (clean_dir all_removed no_files cache_root)
        answer
        fresh_task
create_download_task_example =
    create_download_task_lem sample all_removed no_files (clean_dir all_removed no_files cache_root)
      answer fresh_task made
