-- ===== src/Queue/Threads.antt =====
-- ffos/ota/include/utils/MutexQueue.h with any number of threads on one queue. A step is one line of
-- the program of one thread: a call of the pthread library, a test, or an operation of std::queue. The
-- mutex has an owner; a thread that waits for it stays where it is.
use code_snippet.Common.{
  ℕ, List, [], ◌∷◌, ◌++◌, Bool, true, false, Option, none, some, ◌==◌, if◌then◌else◌, length,
}

-- Where a thread is. The Boolean says whether Front is followed by Pop, as in EventLooper::doLoop and
-- ServerDaemonImpl::flushMessage.
pub data Pc : Type 0 where
  idle : Pc
  push_locks : ℕ → Pc
  push_tests : ℕ → Pc
  -- in pthread_cond_wait(&m_condFull, ...), and past it but for the lock
  push_waits : ℕ → Pc
  push_wakes : ℕ → Pc
  push_adds : ℕ → Pc
  push_signals : Pc
  pop_locks : Pc
  pop_tests : Pc
  pop_removes : Pc
  front_locks : Bool → Pc
  front_tests : Bool → Pc
  -- in pthread_cond_wait(&m_condEmpty, ...), and past it but for the lock
  front_waits : Bool → Pc
  front_wakes : Bool → Pc
  front_reads : Bool → Pc
  -- at the unlock, with what follows it
  unlocks : Pc → Pc
  -- in `front` or `pop` of an empty std::queue
  undefined_front : Pc
  undefined_pop : Pc

pub record Shared : Type 0 where
  pub size : ℕ
  pub inner_queue : List ℕ
  pub owner : Option ℕ
  pub pc : ℕ → Pc
  -- what was added and removed up to now
  pub added : List ℕ
  pub removed : List ℕ

abbrev pub new_shared : ℕ → Shared
new_shared size = record {
  size = size;
  inner_queue = [];
  owner = none;
  pc = λ i. idle;
  added = [];
  removed = [];
}

abbrev pub place_at : (ℕ → Pc) → ℕ → Pc → ℕ → Pc
place_at pc i p = λ j. if j == i then p else pc j

abbrev pub move : Shared → ℕ → Pc → Shared
move s i p = record s { pc = place_at s.pc i p }

-- pthread_mutex_lock by thread `i`, which goes on at `p`.
abbrev pub lock : Shared → ℕ → Pc → Shared
lock s i p = elim s.owner [
  | none ↦ record s { owner = some i; pc = place_at s.pc i p }
  | some k ↦ s
]

abbrev pub unlock : Shared → ℕ → Pc → Shared
unlock s i p = record s { owner = none; pc = place_at s.pc i p }

-- pthread_cond_signal(&m_condEmpty) lets thread `j` go, if it waits for that condition.
abbrev pub signalled : Pc → Pc
signalled (front_waits then_pop) = front_wakes then_pop
signalled p = p

abbrev pub after_front : Bool → Pc
after_front true = pop_locks
after_front false = idle

-- The next line of thread `i`, which stands at the given place; the first number after it is the
-- thread that a signal wakes.
unfoldable pub line : Shared → ℕ → ℕ → Pc → Shared
line s i j idle = s
line s i j (push_locks t) = lock s i (push_tests t)
line s i j (push_tests t) =
    if length s.inner_queue == s.size then unlock s i (push_waits t) else move s i (push_adds t)
line s i j (push_waits t) = s
line s i j (push_wakes t) = lock s i (push_tests t)
line s i j (push_adds t) = record s {
  inner_queue = s.inner_queue ++ t ∷ [];
  pc = place_at s.pc i push_signals;
  added = s.added ++ t ∷ [];
}
line s i j push_signals = move (move s j (signalled (s.pc j))) i (unlocks idle)
line s i j pop_locks = lock s i pop_tests
-- `return false` without an unlock
line s i j pop_tests = elim s.inner_queue [ [] ↦ move s i idle | t ∷ ts ↦ move s i pop_removes ]
line s i j pop_removes = elim s.inner_queue [
  | [] ↦ move s i undefined_pop
  | t ∷ ts ↦ record s {
    inner_queue = ts;
    pc = place_at s.pc i (unlocks idle);
    removed = s.removed ++ t ∷ [];
  }
]
line s i j (front_locks then_pop) = lock s i (front_tests then_pop)
line s i j (front_tests then_pop) = elim s.inner_queue [
  | [] ↦ unlock s i (front_waits then_pop)
  | t ∷ ts ↦ move s i (front_reads then_pop)
]
line s i j (front_waits then_pop) = s
line s i j (front_wakes then_pop) = lock s i (front_reads then_pop)
line s i j (front_reads then_pop) = elim s.inner_queue [
  | [] ↦ move s i undefined_front
  | t ∷ ts ↦ move s i (unlocks (after_front then_pop))
]
line s i j (unlocks p) = unlock s i p
line s i j undefined_front = s
line s i j undefined_pop = s

-- What the scheduler and the rest of the program choose.
pub data Choice : Type 0 where
  calls_push : ℕ → Choice
  calls_pop : Choice
  calls_front : Choice
  -- Front and then Pop
  takes : Choice
  -- the next line, with the thread that a signal would wake
  runs : ℕ → Choice
  -- pthread_cond_wait returns 0 without a signal, as POSIX lets it
  wakes_up : Choice
  -- it returns an error, with the lock held
  wait_fails : Choice

-- A thread that is between its calls starts one.
abbrev pub call : Shared → ℕ → Pc → Pc → Shared
call s i p idle = move s i p
call s i p _ = s

abbrev pub woken : Shared → ℕ → Pc → Shared
woken s i (push_waits t) = move s i (push_wakes t)
woken s i (front_waits then_pop) = move s i (front_wakes then_pop)
woken s i _ = s

-- Push unlocks before its return; Front returns NULL with the lock held.
abbrev pub wait_failed : Shared → ℕ → Pc → Shared
wait_failed s i (push_waits t) = lock s i (unlocks idle)
wait_failed s i (front_waits then_pop) = lock s i (after_front then_pop)
wait_failed s i _ = s

-- One event of thread `i`.
unfoldable pub step : Shared → ℕ → Choice → Shared
unfolding line
step s i (calls_push t) = call s i (push_locks t) (s.pc i)
step s i calls_pop = call s i pop_locks (s.pc i)
step s i calls_front = call s i (front_locks false) (s.pc i)
step s i takes = call s i (front_locks true) (s.pc i)
step s i (runs j) = line s i j (s.pc i)
step s i wakes_up = woken s i (s.pc i)
step s i wait_fails = wait_failed s i (s.pc i)

-- Any interleaving: which thread is next, and its event.
unfoldable pub interleave : Shared → List (ℕ × Choice) → Shared
unfolding step
interleave s [] = s
interleave s ((i, e) ∷ es) = interleave (step s i e) es
