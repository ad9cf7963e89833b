-- ===== src/Check.antt =====
-- One round of the thread of ffos/ota/src/ota/daemon/CheckDaemon.cpp: the question to the update server
-- by ffos/ota/src/net/HttpClient.cpp, the task for its answer, and the download.
pub mod Answer
mod Tests
use code_snippet.Common.{
  ℕ, List, [], ◌∷◌, ◌++◌, Bool, true, false, Option, none, some, ◌>>=◌, if◌then◌else◌, length,
}
use code_snippet.Json.{Json}
use code_snippet.Files.{Files}
use code_snippet.Socket.Framing.{c_str}
use code_snippet.Md5.Context.{Md5}
use code_snippet.Download.{DownloadTask, SizeReply, Attempt, RunResult, run}
use code_snippet.Task.{load_result, create_download_task}

-- What curl hands to the callback: the bytes that it received, and what the memory holds behind them.
pub record Chunk : Type 0 where
  pub received : List ℕ
  pub beyond : List ℕ

-- saveToBuffer, with its result; `append(data)` takes the bytes up to the first NUL.
unfoldable pub save_to_buffer : List ℕ → Option Chunk → List ℕ × ℕ
unfolding c_str
save_to_buffer buffer none = (buffer, 0)
save_to_buffer buffer (some chunk) =
    (buffer ++ c_str (chunk.received ++ chunk.beyond), length chunk.received)

-- The calls that curl_easy_perform makes.
unfoldable pub perform : List ℕ → List Chunk → List ℕ
unfolding save_to_buffer
perform buffer [] = buffer
perform buffer (chunk ∷ chunks) = perform (save_to_buffer buffer (some chunk)).0 chunks

-- What curl does with a request: whether curl_easy_init gives a handle, and the calls of the callback.
pub record Exchange : Type 0 where
  pub initialised : Bool
  pub chunks : List Chunk

-- PostRequest; an error and another status than 200 are only written to the log.
unfoldable pub post_request : Exchange → List ℕ
unfolding perform
post_request e = if e.initialised then perform [] e.chunks else []

-- GetRequest
unfoldable pub get_request : Exchange → List ℕ
unfolding perform
get_request e = if e.initialised then perform [] e.chunks else []

module _ (j : Json) where
  open j use {Value}

  -- CheckDaemon::check, as the parsed answer, or `none` for NULL.
  unfoldable pub check : Exchange → Option (Option Value)
  unfolding post_request
  check e = load_result j (post_request e)

  -- A round: without a download, or with one.
  pub data Round : Type 0 where
    nothing : Files → Round
    downloads : Files → DownloadTask → RunResult → Round

  -- What follows createDownloadTask; `started` tells whether the thread of the downloader starts.
  abbrev pub download_for :
      Md5 → Bool → (ℕ → SizeReply) → (ℕ → Attempt) → Files × Option DownloadTask → Round
  download_for memory started replies attempts (files, none) = nothing files
  download_for memory started replies attempts (files, some task) =
      if started then downloads files task (run memory replies attempts task) else nothing files

  -- The body of the `while (true)` of CheckDaemon::Run.
  unfoldable pub run_once :
      Md5
      → (List ℕ → Bool)
      → Files
      → Exchange
      → Bool
      → (ℕ → SizeReply)
      → (ℕ → Attempt)
      → Option Round
  unfolding check
  run_once memory removed files e started replies attempts = do
    result ← check e
    elim result [
      | none ↦ some (nothing files)
      | some answer ↦ do
        made ← create_download_task j removed files answer
        some (download_for memory started replies attempts made)
    ]
