-- ===== src/Thread.antt =====
-- ffos/ota/src/thread/Thread.cpp: one thread object. The answers of the calls of pthread are arguments, 0 for a
-- success.
pub mod Lifetime
use code_snippet.Common.{
  ℕ, List, [], ◌∷◌, Bool, true, false, ◌&&◌, Option, none, some, ◌==◌, if◌then◌else◌,
}

pub record Thread : Type 0 where
  pub auto_delete : Bool
  pub is_started : Bool

-- What a call does.
pub data Call : Type 0 where
  pthread_create : Call
  pthread_kill : Call
  pthread_join : Call

unfoldable pub new_thread : Bool → Thread
new_thread auto_delete = record { auto_delete = auto_delete; is_started = false }

-- Start; `none` is the exception.
unfoldable pub start : Thread → ℕ → Option (Thread × ℕ × List Call)
start t created =
    if t.is_started
    then none
    else some (record t { is_started = true }, created, pthread_create ∷ [])

-- Stop; `none` is the exception.
unfoldable pub stop : Thread → Bool → ℕ → Option (ℕ × List Call)
stop t wait killed =
    if t.is_started
    then some (
      killed,
      if (killed == 0) && wait then pthread_kill ∷ pthread_join ∷ [] else pthread_kill ∷ [],
    )
    else none

-- Join, and IsAlive, where the answer is ESRCH or not.
unfoldable pub join : ℕ → ℕ × List Call
join joined = (joined, pthread_join ∷ [])

unfoldable pub is_alive : Bool → Bool
is_alive missing = if missing then false else true

-- runnable_proxy for a thread: whether `Run` is called, and whether the object is deleted then. The argument
-- tells whether sigaction succeeds.
unfoldable pub runnable_proxy : Thread → Bool → Bool × Bool
runnable_proxy t installed = if installed then (true, t.auto_delete) else (false, false)
