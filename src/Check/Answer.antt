-- ===== src/Check/Answer.antt =====
-- What the server's answer is, and what a successful round has made sure of.
use code_snippet.Common.{
  ℕ, ◌<◌, ◌≡◌, ◌⊎◌, sym, ap, ◌∙◌, inl, inr, List, [], ◌∷◌, ◌++◌, Bool, true, Option, none, some,
  ◌>>=◌, >>=-eq-some, Bool-cases, append_assoc, append-nil, subst,
}
use code_snippet.Json.{Json}
use code_snippet.Files.{Files}
use code_snippet.Socket.Framing.{c_str}
use code_snippet.Socket.Nul.{NulFree, c_str_ends}
use code_snippet.Md5.Context.{Md5}
use code_snippet.Download.{DownloadTask, SizeReply, Attempt, RunResult, run}
use code_snippet.Download.Retries.{count, successes}
use code_snippet.Download.Sizes.{FirstSize}
use code_snippet.Download.Outcome.{Verified, run-Verified}
use code_snippet.Task.{create_download_task}
use code_snippet.Task.Choice.{Resumed, Fresh, create_download_task_lem}
use code_snippet.Check.{
  Chunk, save_to_buffer, perform, Exchange, post_request, check, Round, nothing, downloads,
  download_for, run_once,
}

abbrev pub received : List Chunk → List ℕ
received [] = []
received (chunk ∷ chunks) = chunk.received ++ received chunks

-- Bytes without a NUL, and a NUL behind them.
pub record EndsInNul (chunk : Chunk) : Type 0 where
  pub plain : NulFree chunk.received
  pub rest : List ℕ
  pub nul_behind : chunk.beyond ≡ 0 ∷ rest

abbrev pub AllEndInNul : List Chunk → Type 0
AllEndInNul [] = Unit {0}
AllEndInNul (chunk ∷ chunks) = EndsInNul chunk × AllEndInNul chunks

perform-received :
    (buffer : List ℕ) (chunks : List Chunk)
    → AllEndInNul chunks
    → perform buffer chunks ≡ buffer ++ received chunks
unfolding perform save_to_buffer
perform-received buffer [] h = sym (append-nil buffer)
perform-received buffer (chunk ∷ chunks) h =
    perform-received (buffer ++ c_str (chunk.received ++ chunk.beyond)) chunks h.1
    ∙ ap (λ (xs : List ℕ). (buffer ++ xs) ++ received chunks)
        (ap (λ (xs : List ℕ). c_str (chunk.received ++ xs)) h.0.nul_behind
          ∙ c_str_ends chunk.received h.0.rest h.0.plain)
    ∙ append_assoc buffer chunk.received (received chunks)

-- The answer of the server is read whole, provided that no piece of it has a NUL and that the memory
-- behind each piece starts with one, which curl does not promise.
pub post_request-received :
    (chunks : List Chunk)
    → AllEndInNul chunks
    → post_request (record { initialised = true; chunks = chunks }) ≡ received chunks
unfolding post_request
post_request-received chunks h = perform-received [] chunks h

module _ (j : Json) (memory : Md5) (removed : List ℕ → Bool) (files files' : Files) (e : Exchange)
    (started : Bool) (replies : ℕ → SizeReply) (attempts : ℕ → Attempt) (task : DownloadTask)
    (r : RunResult) where
  -- What a round that ends in a success has made sure of.
  pub record Assured (answer : j.Value) : Type 0 where
    pub complete : check j e ≡ some (some answer)
    pub chosen :
        ((files' ≡ files) × Resumed j files answer task) ⊎ Fresh j removed files files' answer task
    pub size_reported : FirstSize replies 0 task.file_size
    pub digest_matches : Verified memory attempts task.md5

  abbrev downloads_as : Files → DownloadTask → RunResult → Round j
  downloads_as = downloads

  by_task :
      (answer : j.Value) (files2 : Files) (made : Option DownloadTask)
      → 0 < count successes r.calls
      → check j e ≡ some (some answer)
      → create_download_task j removed files answer ≡ some (files2, made)
      → download_for j memory started replies attempts (files2, made) ≡ downloads files' task r
      → Assured answer
  by_task answer files2 none success answered created same = cc same
  by_task answer files2 (some t) success answered created same = elim (Bool-cases started) [
    | inr failed ↦ cc (rw failed at same)
    | inl ok ↦
        let ended : downloads_as files2 t (run memory replies attempts t)
            ≡ downloads_as files' task r =
          rw ok at same in
        let same_files : files2 ≡ files' = cc ended in
        let same_task : t ≡ task = cc ended in
        let ran : run memory replies attempts task ≡ r =
          cc (ended, ap (run memory replies attempts) same_task) in
        let (size_, digest) =
          run-Verified memory replies attempts task
            (subst (λ (r' : RunResult). 0 < count successes r'.calls) (sym ran) success) in
        record {
          complete = answered;
          chosen = create_download_task_lem j removed files files' answer task (
              created
              ∙ ap (λ (f : Files). some (f, some t)) same_files
              ∙ ap (λ t'. some (files', some t')) same_task);
          size_reported = size_;
          digest_matches = digest;
        }
  ]

  by_answer :
      (result : Option j.Value)
      → 0 < count successes r.calls
      → check j e ≡ some result
      → elim result as (λ x. Option (Round j)) [
        | none ↦ some (nothing files)
        | some answer ↦ create_download_task j removed files answer >>= λ made.
            some (download_for j memory started replies attempts made)
      ]
        ≡ some (downloads files' task r)
      → (answer : j.Value) × Assured answer
  by_answer none success answered h = cc h
  by_answer (some answer) success answered h =
      let (made, created, same) = >>=-eq-some (create_download_task j removed files answer) _ h in
      (answer, by_task answer made.0 made.1 success answered created (cc same))

  -- A round whose download reports a success: the server gave an answer with all its members; the task is
  -- the one that createDownloadTask chooses for it, resumed from the cache or fresh; its size is what the
  -- server of the file reported first; and one of the attempts left a file with the task's MD5 digest.
  pub run_once-Assured :
      run_once j memory removed files e started replies attempts ≡ some (downloads files' task r)
      → 0 < count successes r.calls
      → (answer : j.Value) × Assured answer
  unfolding run_once
  run_once-Assured h success =
      let (result, answered, rest) = >>=-eq-some (check j e) _ h in
      by_answer result success answered rest
