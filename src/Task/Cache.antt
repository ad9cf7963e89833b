-- ===== src/Task/Cache.antt =====
-- The cache file of a task is read back as the task.
use code_snippet.Common.{ℕ, ◌^◌, ◌<◌, ◌≡◌, refl, ◌∙◌, List, [], ◌∷◌, ◌++◌, true, some, codes}
use code_snippet.Json.{Json, IsText, Laws}
use code_snippet.Json.Objects.{
  build, build-IsObject, read_as, parse-print, read_string, read_double,
}
use code_snippet.Utf8.{get_file_name_from_url}
use code_snippet.Files.{Files, write_file}
use code_snippet.Files.Reading.{is_file_exist-some, read_file-some, write_file-same}
use code_snippet.Download.{DownloadTask}
use code_snippet.Task.{
  cache_root, download_task_cache_file, task_in_cache, load_from_cache, dump, cache_self,
}

-- What the JSON text can hold: texts without NUL, and sizes that a double holds.
pub record IsStorable (t : DownloadTask) : Type 0 where
  pub plain_url : IsText t.url
  pub plain_md5 : IsText t.md5
  pub small_size : t.file_size < 2 ^ 53
  pub small_progress : t.progress < 2 ^ 53
  pub small_breakpoint : t.breakpoint < 2 ^ 53

-- The task with the path that loading gives it.
abbrev pub relocated : DownloadTask → DownloadTask
relocated t = record t { download_path = cache_root ++ get_file_name_from_url t.url }

module _ (j : Json) (laws : Laws j) where
  open j use {Value, parse, print, get, put, empty, text, number, as_string, as_double}

  -- The members that `dump` writes, the last one first.
  abbrev members_of : DownloadTask → List (List ℕ × Value)
  members_of t =
      (codes "breakpoint", number t.breakpoint)
      ∷ (codes "progress", number t.progress)
      ∷ (codes "file_size", number t.file_size)
      ∷ (codes "md5", text t.md5)
      ∷ (codes "download_path", text t.download_path)
      ∷ (codes "url", text t.url)
      ∷ []

  task_read :
      (t : DownloadTask)
      → IsStorable t
      → task_in_cache j (read_as j laws (members_of t)) ≡ some (relocated t)
  unfolding task_in_cache
  task_read t ok =
      rw
        (
          read_string j laws (members_of t) (codes "url") t.url ok.plain_url refl,
          read_string j laws (members_of t) (codes "md5") t.md5 ok.plain_md5 refl,
          read_double j laws (members_of t) (codes "file_size") t.file_size ok.small_size refl,
          read_double j laws (members_of t) (codes "progress") t.progress ok.small_progress refl,
          read_double j laws (members_of t) (codes "breakpoint") t.breakpoint ok.small_breakpoint
              refl,
        )
        refl

  loaded :
      (files : Files) (content : List ℕ) (v : Value) (t : DownloadTask)
      → files download_task_cache_file ≡ some content
      → parse (content ++ 10 ∷ []) ≡ some v
      → task_in_cache j v ≡ some t
      → load_from_cache j files ≡ some (some t)
  unfolding load_from_cache
  loaded files content v t e parsed read =
      rw
        (
          is_file_exist-some files download_task_cache_file content e,
          read_file-some files download_task_cache_file content e,
        )
        (rw (parsed, load_from_cache) (rw read refl))

  -- A task that was written to the cache file is loaded from it with all its fields, but for the path
  -- of the download, which is computed from the URL again. The JSON library keeps its laws, the
  -- texts have no NUL, the sizes are below 2 ^ 53, and the file could be written.
  pub load_from_cache-cache_self :
      (files : Files) (t : DownloadTask)
      → IsStorable t
      → load_from_cache j (cache_self j true files t) ≡ some (some (relocated t))
  unfolding cache_self
  load_from_cache-cache_self files t ok =
      loaded (write_file true files download_task_cache_file (dump j t)).0 (dump j t)
        (read_as j laws (members_of t)) (relocated t)
        (write_file-same files download_task_cache_file (dump j t)) reread (task_read t ok)
    where
      reread : parse (dump j t ++ 10 ∷ []) ≡ some (read_as j laws (members_of t))
      reread =
          unfold dump in
          (laws.newline (build j (members_of t)) (build-IsObject j (members_of t))
            ∙ parse-print j laws (members_of t))
