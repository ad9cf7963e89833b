-- ===== src/Queue/Plan.antt =====
-- ffos/ota/include/utils/MutexQueue.h, as the program uses it: one thread takes elements, Front and then
-- Pop, and any thread pushes.
use code_snippet.Common.{
  ℕ, ◌≡◌, ◌≢◌, refl, sym, ap, subst, ◌∙◌, List, [], ◌∷◌, Bool, true, false, Option, none, some,
  arith, ◌==◌, ==_iff, if◌then◌else◌,
}
use code_snippet.Queue.Threads.{
  Pc, idle, pop_locks, pop_tests, pop_removes, front_locks, front_tests, front_waits, front_wakes,
  front_reads, unlocks, undefined_front, undefined_pop, Shared, place_at, move, lock, unlock,
  Choice, calls_push, calls_pop, calls_front, takes, runs, wakes_up, wait_fails,
}
use code_snippet.Queue.Exclusion.{IsOutside}

-- No wait ends without a signal, only thread `c` takes, and no thread calls Pop or Front alone.
abbrev pub IsPlanned : ℕ → ℕ → Choice → Type 0
IsPlanned c i (calls_push t) = Unit
IsPlanned c i calls_pop = ⊥
IsPlanned c i calls_front = ⊥
IsPlanned c i takes = i ≡ c
IsPlanned c i (runs j) = Unit
IsPlanned c i wakes_up = ⊥
IsPlanned c i wait_fails = ⊥

abbrev pub ArePlanned : ℕ → List (ℕ × Choice) → Type 0
ArePlanned c [] = Unit
ArePlanned c ((i, e) ∷ es) = IsPlanned c i e × ArePlanned c es

-- What may follow an unlock.
abbrev pub Follows : ℕ → List ℕ → ℕ → Pc → Type 0
Follows c ts k idle = Unit
Follows c ts k pop_locks = (k ≡ c) × (ts ≢ [])
Follows c ts k _ = ⊥

-- What the plan makes of the place of thread `k`.
abbrev pub Role : ℕ → List ℕ → ℕ → Pc → Type 0
Role c ts k pop_locks = (k ≡ c) × (ts ≢ [])
Role c ts k pop_tests = (k ≡ c) × (ts ≢ [])
Role c ts k pop_removes = k ≡ c
Role c ts k (front_locks b) = (k ≡ c) × (b ≡ true)
Role c ts k (front_tests b) = (k ≡ c) × (b ≡ true)
Role c ts k (front_waits b) = (k ≡ c) × (b ≡ true)
Role c ts k (front_wakes b) = (k ≡ c) × (b ≡ true) × (ts ≢ [])
Role c ts k (front_reads b) = (k ≡ c) × (b ≡ true) × (ts ≢ [])
Role c ts k (unlocks p) = Follows c ts k p
Role c ts k undefined_front = ⊥
Role c ts k undefined_pop = ⊥
Role c ts k _ = Unit

pub record Plan (c : ℕ) (s : Shared) : Type 0 where
  pub roles : (k : ℕ) → Role c s.inner_queue k (s.pc k)
  pub kept : (k : ℕ) → s.owner ≡ some k → ¬ IsOutside (s.pc k)

module _ (c : ℕ) where
  other-Follows :
      (ts ts' : List ℕ) (k : ℕ) (p : Pc)
      → (k ≡ c → ts ≢ [] → ts' ≢ [])
      → Follows c ts k p
      → Follows c ts' k p
  other-Follows ts ts' k idle keeps h = tt
  other-Follows ts ts' k pop_locks keeps h = (h.0, keeps h.0 h.1)
  other-Follows ts ts' k _ keeps h = ground arith

  pub Follows-Role : (ts : List ℕ) (k : ℕ) (p : Pc) → Follows c ts k p → Role c ts k p
  Follows-Role ts k idle h = tt
  Follows-Role ts k pop_locks h = h
  Follows-Role ts k _ h = ground arith

  -- Only the consumer relies on an element.
  other-Role :
      (ts ts' : List ℕ) (k : ℕ) (p : Pc)
      → (k ≡ c → ts ≢ [] → ts' ≢ [])
      → Role c ts k p
      → Role c ts' k p
  other-Role ts ts' k (unlocks p) keeps h = other-Follows ts ts' k p keeps h
  other-Role ts ts' k pop_locks keeps h = (h.0, keeps h.0 h.1)
  other-Role ts ts' k pop_tests keeps h = (h.0, keeps h.0 h.1)
  other-Role ts ts' k (front_wakes b) keeps h = (h.0, h.1, keeps h.0 h.2)
  other-Role ts ts' k (front_reads b) keeps h = (h.0, h.1, keeps h.0 h.2)
  other-Role ts ts' k _ keeps h = ground arith

  -- Thread `i` goes on at `p`, and the lock and the queue change.
  module _ (s : Shared) (i : ℕ) (plan : Plan c s) where
    pub go-Plan :
        (owner : Option ℕ) (ts added removed : List ℕ) (p : Pc)
        → Role c ts i p
        → ((k : ℕ) → k ≢ i → k ≡ c → s.inner_queue ≢ [] → ts ≢ [])
        → (owner ≡ some i → ¬ IsOutside p)
        → ((k : ℕ) → k ≢ i → owner ≡ some k → s.owner ≡ some k)
        → Plan c (record s {
          inner_queue = ts;
          owner = owner;
          pc = place_at s.pc i p;
          added = added;
          removed = removed;
        })
    go-Plan owner ts added removed p role keeps own others = record {
      roles = λ k. roles_by k (k == i) refl;
      kept = λ k. kept_by k (k == i) refl;
    }
      where
        apart : (k : ℕ) → (k == i) ≡ false → k ≢ i
        apart k e same = ground (arith, (==_iff k i).1 same)

        roles_by :
            (k : ℕ) (same : Bool) → (k == i) ≡ same → Role c ts k (if same then p else s.pc k)
        roles_by k true e = subst (λ (n : ℕ). Role c ts n p) (sym ((==_iff k i).0 e)) role
        roles_by k false e =
            other-Role s.inner_queue ts k (s.pc k) (keeps k (apart k e)) (plan.roles k)

        kept_by :
            (k : ℕ) (same : Bool)
            → (k == i) ≡ same
            → owner ≡ some k
            → ¬ IsOutside (if same then p else s.pc k)
        kept_by k true e held = own (held ∙ ap some ((==_iff k i).0 e))
        kept_by k false e held = plan.kept k (others k (apart k e) held)

    -- The lock stays as it is, and so does the queue.
    pub move-Plan :
        (p : Pc)
        → Role c s.inner_queue i p
        → (s.owner ≡ some i → ¬ IsOutside p)
        → Plan c (move s i p)
    move-Plan p role own =
        go-Plan s.owner s.inner_queue s.added s.removed p role (λ k ne same h. h) own (λ k ne h. h)

    pub unlock-Plan : (p : Pc) → Role c s.inner_queue i p → Plan c (unlock s i p)
    unlock-Plan p role =
        go-Plan none s.inner_queue s.added s.removed p role (λ k ne same h. h) (λ e. absurd (cc e))
          (λ k ne e. absurd (cc e))

    pub lock-Plan : (p : Pc) → Role c s.inner_queue i p → ¬ IsOutside p → Plan c (lock s i p)
    lock-Plan p role inside = lock_by s.owner refl
      where
        lock_by :
            (owner : Option ℕ)
            → s.owner ≡ owner
            → Plan c (elim owner [
              | none ↦ record s { owner = some i; pc = place_at s.pc i p }
              | some k ↦ s
            ])
        lock_by (some k) e = plan
        lock_by none e =
            go-Plan (some i) s.inner_queue s.added s.removed p role (λ k ne same h. h) (λ e. inside)
              (λ k ne e'. absurd (ne (ground arith)))
