-- ===== src/Task/Choice.antt =====
-- Which task createDownloadTask hands out.
use code_snippet.Common.{
  ℕ, ◌≡◌, ◌⊎◌, refl, sym, ap, ◌∙◌, inl, inr, List, Bool, true, false, ◌&&◌, Option, none, some,
  subst, ◌>>=◌, >>=-eq-some, arith, codes, ◌==◌, ==_iff, text_eq, text_eq_iff, if◌then◌else◌,
  Bool-cases, Option-cases,
}
use code_snippet.Json.{Json, get_string, get_double}
use code_snippet.Files.{Files, is_file_exist, get_file_size, clean_dir}
use code_snippet.Download.{DownloadTask}
use code_snippet.Task.{
  cache_root, task_in_metadata, load, load_from_cache, is_resumable, new_task, create_download_task,
}

module _ (j : Json) where
  open j use {Value, parse, print}

  -- A task from the cache that goes on where the file on the disk ends, for the file of the answer.
  pub record Resumed (files : Files) (result : Value) (t : DownloadTask) : Type 0 where
    pub from_cache : load_from_cache j files ≡ some (some t)
    pub same_url : get_string j result (codes "url") ≡ some t.url
    pub same_size : get_double j result (codes "size") ≡ some t.file_size
    pub on_disk : get_file_size files t.download_path ≡ some t.progress

  -- A task that starts from nothing, the files of earlier downloads cleaned as far as `rm` removes them.
  pub record Fresh (removed : List ℕ → Bool) (files files' : Files) (result : Value)
      (t : DownloadTask) : Type 0 where
    pub cleaned : files' ≡ clean_dir removed files cache_root
    pub from_answer : load j (print result) ≡ some (some t)
    pub from_start : t.progress ≡ 0

  task_in_metadata-progress :
      (v : Value) (t : DownloadTask) → task_in_metadata j v ≡ some t → t.progress ≡ 0
  unfolding task_in_metadata
  task_in_metadata-progress v t h = ground arith

  load-progress : (text : List ℕ) (t : DownloadTask) → load j text ≡ some (some t) → t.progress ≡ 0
  unfolding load
  load-progress text t h = elim (Option-cases (parse text)) [
    | inl e ↦ cc (rw (e, load) at h)
    | inr (v, e) ↦
        let (t', made, same) = >>=-eq-some (task_in_metadata j v) _ (rw (e, load) at h) in
        task_in_metadata-progress v t (cc (made, same))
  ]

  new_task-Fresh :
      (removed : List ℕ → Bool) (files files' : Files) (result : Value) (t : DownloadTask)
      → new_task j removed files result ≡ some (files', some t)
      → Fresh removed files files' result t
  unfolding new_task
  new_task-Fresh removed files files' result t h =
      let (o, loaded, same) = >>=-eq-some (load j (print result)) _ h in
      let loaded' : load j (print result) ≡ some (some t) = cc (loaded, same) in
      record {
        cleaned = cc same;
        from_answer = loaded';
        from_start = load-progress (print result) t loaded';
      }

  is_resumable-true :
      (files : Files) (result : Value) (t : DownloadTask)
      → is_resumable j files t result ≡ some true
      → (get_string j result (codes "url") ≡ some t.url)
        × (get_double j result (codes "size") ≡ some t.file_size)
        × (get_file_size files t.download_path ≡ some t.progress)
  unfolding is_resumable
  is_resumable-true files result t h =
      let (url, got_url, rest) = >>=-eq-some (get_string j result (codes "url")) _ h in
      elim (Bool-cases (text_eq t.url url)) [
        | inr other ↦ cc (rw other at rest)
        | inl same ↦
            let (size, got_size, rest') =
              >>=-eq-some (get_double j result (codes "size")) _ (rw same at rest) in
            elim (Bool-cases (t.file_size == size && is_file_exist files t.download_path)) [
              | inr other ↦ cc (rw other at rest')
              | inl both ↦
                  let (n, on_disk, equal) =
                    >>=-eq-some (get_file_size files t.download_path) _ (rw both at rest') in
                  (
                    got_url ∙ ap some (sym ((text_eq_iff t.url url).0 same)),
                    got_size ∙ ap some (sym ((==_iff t.file_size size).0 (and_left _ _ both))),
                    on_disk ∙ ap some ((==_iff n t.progress).0 (cc equal)),
                  )
            ]
      ]
    where
      and_left : (a b : Bool) → a && b ≡ true → a ≡ true
      and_left true b h = refl
      and_left false b h = h

  -- Whatever the cache, the disk and the server's answer hold: a task that createDownloadTask hands out
  -- is either the cached one, the files untouched, for the URL and the size of the answer and with a
  -- progress that is the size of the file on the disk; or a new one made from the answer, with
  -- progress 0 and the cache directory cleaned, as far as its files can be removed.
  pub create_download_task_lem :
      (removed : List ℕ → Bool) (files files' : Files) (result : Value) (t : DownloadTask)
      → create_download_task j removed files result ≡ some (files', some t)
      → ((files' ≡ files) × Resumed files result t) ⊎ Fresh removed files files' result t
  unfolding create_download_task
  create_download_task_lem removed files files' result t h =
      let (cached, from_cache, rest) = >>=-eq-some (load_from_cache j files) _ h in
      by_cache cached from_cache rest
    where
      by_cache :
          (cached : Option DownloadTask)
          → load_from_cache j files ≡ some cached
          → elim cached as (λ x. Option (Files × Option DownloadTask)) [
            | none ↦ new_task j removed files result
            | some task ↦ is_resumable j files task result >>= λ resumable.
                if resumable then some (files, some task) else new_task j removed files result
          ]
            ≡ some (files', some t)
          → ((files' ≡ files) × Resumed files result t) ⊎ Fresh removed files files' result t
      by_cache none from_cache h = inr (new_task-Fresh removed files files' result t h)
      by_cache (some task) from_cache h =
          let (resumable, tested, rest) = >>=-eq-some (is_resumable j files task result) _ h in
          elim (Bool-cases resumable) [
            | inr no_ ↦ inr (new_task-Fresh removed files files' result t (rw no_ at rest))
            | inl resumed ↦
                let same : some (files, some task) ≡ some (files', some t) = rw resumed at rest in
                let task_same : task ≡ t = cc same in
                let (u, s, d) = is_resumable-true files result task (tested ∙ ap some resumed) in
                inl (
                  cc same,
                  subst (Resumed files result) task_same (record {
                    from_cache = from_cache;
                    same_url = u;
                    same_size = s;
                    on_disk = d;
                  }),
                )
          ]
