-- ===== src/Thread/Lifetime.antt =====
-- A thread object creates one thread at most.
use code_snippet.Common.{ℕ, ◌+◌, ◌≡◌, List, [], ◌∷◌, Bool, Option, none, some, arith, if◌then◌else◌}
use code_snippet.Thread.{
  Thread, Call, pthread_create, pthread_kill, pthread_join, new_thread, start, stop, join,
}

-- What the owner does; an exception leaves the object as it is.
pub data Action : Type 0 where
  starts : ℕ → Action
  stops : Bool → ℕ → Action
  joins : ℕ → Action

abbrev pub creations : List Call → ℕ
creations [] = 0
creations (pthread_create ∷ calls) = 1 + creations calls
creations (pthread_kill ∷ calls) = creations calls
creations (pthread_join ∷ calls) = creations calls

abbrev pub after_start : Thread → Option (Thread × ℕ × List Call) → Thread × List Call
after_start t none = (t, [])
after_start t (some (t', created, calls)) = (t', calls)

abbrev pub after_stop : Thread → Option (ℕ × List Call) → Thread × List Call
after_stop t none = (t, [])
after_stop t (some (result, calls)) = (t, calls)

abbrev pub act : Action → Thread → Thread × List Call
act (starts created) t = after_start t (start t created)
act (stops wait killed) t = after_stop t (stop t wait killed)
act (joins joined) t = (t, (join joined).1)

-- The object at the end, and how many threads were created.
abbrev pub act_all : List Action → Thread → Thread × ℕ
act_all [] t = (t, 0)
act_all (a ∷ actions) t =
    let (t', calls) = act a t in
    let (last, created) = act_all actions t' in (last, creations calls + created)

-- How many threads the object has created.
abbrev pub created_by : Thread → ℕ
created_by t = if t.is_started then 1 else 0

act-creations :
    (a : Action) (t : Thread) → creations (act a t).1 + created_by t ≡ created_by (act a t).0
unfolding start stop join
act-creations (starts created) t = ground arith
act-creations (stops wait killed) t = ground arith
act-creations (joins joined) t = ground arith

act_all-creations :
    (actions : List Action) (t : Thread)
    → (act_all actions t).1 + created_by t ≡ created_by (act_all actions t).0
act_all-creations [] t = omega arith
act_all-creations (a ∷ actions) t =
    omega (arith, act-creations a t, act_all-creations actions (act a t).0)

-- A new thread object, whatever is called on it, however often, and whatever pthread answers, a failed
-- creation included: it has called pthread_create once if it counts as started, and never otherwise.
pub new_thread-creations :
    (auto_delete : Bool) (actions : List Action)
    → (act_all actions (new_thread auto_delete)).1
      ≡ created_by (act_all actions (new_thread auto_delete)).0
unfolding new_thread
new_thread-creations auto_delete actions =
    omega (arith, act_all-creations actions (new_thread auto_delete))
