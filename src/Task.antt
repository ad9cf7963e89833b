-- ===== src/Task.antt =====
-- ffos/ota/src/download/DownloadTask.cpp, and what ffos/ota/src/ota/net/HttpResult.cpp and
-- ffos/ota/src/ota/daemon/CheckDaemon.cpp do to decide which task is downloaded. The outer `none` is
-- a call that does not return: an exception of the JSON library, or a file that cannot be read.
pub mod Cache
pub mod Choice
mod Tests
use code_snippet.Common.{
  ℕ, List, [], ◌∷◌, ◌++◌, Bool, true, false, not, ◌&&◌, ◌||◌, Option, none, some, ◌>>=◌, ◌>>◌, ◌==◌,
  if◌then◌else◌, length, codes, text_eq,
}
use code_snippet.Json.{Json, get_string, get_double}
use code_snippet.Utf8.{get_file_name_from_url}
use code_snippet.Files.{Files, is_file_exist, read_file, write_file, get_file_size, clean_dir}
use code_snippet.Download.{DownloadTask}

abbrev pub cache_root : List ℕ
cache_root = codes "/mnt/sdcard/fota/"

abbrev pub download_task_cache_file : List ℕ
download_task_cache_file = cache_root ++ codes "download_task.cache"

module _ (j : Json) where
  open j use {Value, parse, print, get, put, empty, is_null, text, number}

  -- What `load` takes from the object.
  unfoldable pub task_in_metadata : Value → Option DownloadTask
  unfolding get_string get_double
  task_in_metadata value = do
    url ← get_string j value (codes "url")
    md5 ← get_string j value (codes "md5")
    size ← get_double j value (codes "size")
    some (record {
      url = url;
      download_path = cache_root ++ get_file_name_from_url url;
      md5 = md5;
      file_size = size;
      progress = 0;
      breakpoint = 0;
    })

  -- DownloadTask::load, as the task it leaves, or `none` for the answer false.
  unfoldable pub load : List ℕ → Option (Option DownloadTask)
  load metadata = elim (parse metadata) [
    | none ↦ some none
    | some value ↦ do task ← task_in_metadata value; some (some task)
  ]

  -- What `loadFromCache` takes from the object.
  unfoldable pub task_in_cache : Value → Option DownloadTask
  unfolding get_string get_double
  task_in_cache value = do
    url ← get_string j value (codes "url")
    md5 ← get_string j value (codes "md5")
    size ← get_double j value (codes "file_size")
    progress ← get_double j value (codes "progress")
    breakpoint ← get_double j value (codes "breakpoint")
    some (record {
      url = url;
      download_path = cache_root ++ get_file_name_from_url url;
      md5 = md5;
      file_size = size;
      progress = progress;
      breakpoint = breakpoint;
    })

  -- DownloadTask::loadFromCache
  unfoldable pub load_from_cache : Files → Option (Option DownloadTask)
  load_from_cache files =
      if is_file_exist files download_task_cache_file
      then (do
        text ← read_file files download_task_cache_file
        elim (parse text) [
          | none ↦ some none
          | some value ↦ do task ← task_in_cache value; some (some task)
        ])
      else some none

  -- The object that `dump` prints.
  abbrev pub dumped : DownloadTask → Value
  dumped t = put (codes "breakpoint") (number t.breakpoint) (
      put (codes "progress") (number t.progress) (
        put (codes "file_size") (number t.file_size) (
          put (codes "md5") (text t.md5) (
            put (codes "download_path") (text t.download_path)
              (put (codes "url") (text t.url) empty)))))

  unfoldable pub dump : DownloadTask → List ℕ
  dump t = print (dumped t)

  -- CacheSelf, where the file can be opened or not.
  unfoldable pub cache_self : Bool → Files → DownloadTask → Files
  unfolding dump
  cache_self opened files t = (write_file opened files download_task_cache_file (dump t)).0

  -- HttpResult::Load, as the parsed value, or `none` for the answer false.
  unfoldable pub load_result : List ℕ → Option (Option Value)
  load_result result = if length result == 0 then some none else elim (parse result) [
    | none ↦ some none
    | some value ↦ do
      status ← get value (codes "status")
      url ← get value (codes "url")
      code ← get value (codes "code")
      md5 ← get value (codes "md5")
      size ← get value (codes "size")
      some (
          if is_null status || (is_null url || (is_null code || (is_null md5 || is_null size)))
          then none
          else some value)
  ]

  -- The tests of createDownloadTask on a cached task, in their order.
  unfoldable pub is_resumable : Files → DownloadTask → Value → Option Bool
  unfolding get_string get_double
  is_resumable files cached result = do
    url ← get_string j result (codes "url")
    if text_eq cached.url url
        then (do
          size ← get_double j result (codes "size")
          if cached.file_size == size && is_file_exist files cached.download_path
              then (do
                downloaded ← get_file_size files cached.download_path
                some (downloaded == cached.progress))
              else some false)
        else some false

  -- The end of createDownloadTask where no cached task is taken.
  unfoldable pub new_task : (List ℕ → Bool) → Files → Value → Option (Files × Option DownloadTask)
  unfolding load
  new_task removed files result = do
    task ← load (print result)
    some (clean_dir removed files cache_root, task)

  -- CheckDaemon::createDownloadTask: the files afterwards, and the task or NULL. `removed` tells which
  -- names `rm` removes.
  unfoldable pub create_download_task :
      (List ℕ → Bool) → Files → Value → Option (Files × Option DownloadTask)
  unfolding is_resumable new_task
  create_download_task removed files result = do
    cached ← load_from_cache files
    elim cached [
      | none ↦ new_task removed files result
      | some task ↦ do
        resumable ← is_resumable files task result
        if resumable then some (files, some task) else new_task removed files result
    ]
