-- ===== src/Queue/Exclusion.antt =====
-- ffos/ota/include/utils/MutexQueue.h: what a thread knows at its place, and what one step does to it.
use code_snippet.Common.{
  ℕ, ◌≤◌, ◌<◌, ◌≡◌, ◌≢◌, refl, sym, subst, inl, inr, List, [], ◌++◌, Bool, true, false, Option,
  none, some, arith, ◌==◌, ==_iff, length, Bool-cases,
}
use code_snippet.Queue.Threads.{
  Pc, idle, push_tests, push_adds, push_signals, pop_tests, pop_removes, front_tests, front_reads,
  unlocks, undefined_pop, Shared, place_at, move, lock, unlock,
}

-- Not between lock and unlock.
abbrev pub IsOutside : Pc → Type 0
IsOutside (push_tests t) = ⊥
IsOutside (push_adds t) = ⊥
IsOutside push_signals = ⊥
IsOutside pop_tests = ⊥
IsOutside pop_removes = ⊥
IsOutside (front_tests b) = ⊥
IsOutside (front_reads b) = ⊥
IsOutside (unlocks p) = ⊥
IsOutside undefined_pop = ⊥
IsOutside _ = Unit

-- What thread `i` knows at its place.
abbrev pub Knows : ℕ → Option ℕ → List ℕ → ℕ → Pc → Type 0
Knows size owner ts i (push_tests t) = owner ≡ some i
Knows size owner ts i (push_adds t) = (owner ≡ some i) × (length ts < size)
Knows size owner ts i push_signals = (owner ≡ some i) × (ts ≢ [])
Knows size owner ts i pop_tests = owner ≡ some i
Knows size owner ts i pop_removes = (owner ≡ some i) × (ts ≢ [])
Knows size owner ts i (front_tests b) = owner ≡ some i
Knows size owner ts i (front_reads b) = owner ≡ some i
Knows size owner ts i (unlocks p) = (owner ≡ some i) × IsOutside p
Knows size owner ts i undefined_pop = ⊥
Knows size owner ts i _ = Unit

pub record Inv (size : ℕ) (s : Shared) : Type 0 where
  pub same_size : s.size ≡ size
  pub order : s.added ≡ s.removed ++ s.inner_queue
  pub bounded : length s.inner_queue ≤ size
  pub knows : (k : ℕ) → Knows size s.owner s.inner_queue k (s.pc k)

module _ (size : ℕ) where
  pub outside-Knows :
      (owner : Option ℕ) (ts : List ℕ) (i : ℕ) (p : Pc) → IsOutside p → Knows size owner ts i p
  outside-Knows owner ts i idle h = tt
  outside-Knows owner ts i _ h = ground arith

  -- A thread without the lock knows nothing that others could change.
  away-Knows :
      (owner owner' : Option ℕ) (ts ts' : List ℕ) (k : ℕ) (p : Pc)
      → owner ≢ some k
      → Knows size owner ts k p
      → Knows size owner' ts' k p
  away-Knows owner owner' ts ts' k idle away h = tt
  away-Knows owner owner' ts ts' k _ away h = ground arith

  place_at-Knows :
      (owner : Option ℕ) (ts : List ℕ) (pc : ℕ → Pc) (i : ℕ) (p : Pc)
      → Knows size owner ts i p
      → ((k : ℕ) → k ≢ i → Knows size owner ts k (pc k))
      → (k : ℕ) → Knows size owner ts k (place_at pc i p k)
  place_at-Knows owner ts pc i p own others k = elim (Bool-cases (k == i)) [
    | inl same ↦
        rw same (subst (λ (n : ℕ). Knows size owner ts n p) (sym ((==_iff k i).0 same)) own)
    | inr other ↦ rw other (others k (λ e. true-ne-false ((==_iff k i).1 e) other))
  ]
    where
      true-ne-false : {b : Bool} → b ≡ true → b ≡ false → ⊥
      true-ne-false h h' = cc (h, h')

  module _ (s : Shared) (i : ℕ) (inv : Inv size s) where
    others : {owner : Option ℕ} → owner ≡ some i → (k : ℕ) → k ≢ i → owner ≢ some k
    others held k ne e = ne (cc (held, e))

    -- A line without effect on the lock and the queue.
    pub move-Inv : (p : Pc) → Knows size s.owner s.inner_queue i p → Inv size (move s i p)
    move-Inv p h = record {
      same_size = inv.same_size;
      order = inv.order;
      bounded = inv.bounded;
      knows = place_at-Knows s.owner s.inner_queue s.pc i p h (λ k ne. inv.knows k);
    }

    pub unlock-Inv : (p : Pc) → s.owner ≡ some i → IsOutside p → Inv size (unlock s i p)
    unlock-Inv p held out = record {
      same_size = inv.same_size;
      order = inv.order;
      bounded = inv.bounded;
      knows =
          place_at-Knows none s.inner_queue s.pc i p (outside-Knows none s.inner_queue i p out)
            (λ k ne.
              away-Knows s.owner none s.inner_queue s.inner_queue k (s.pc k) (others held k ne)
                (inv.knows k));
    }

    pub lock-Inv : (p : Pc) → Knows size (some i) s.inner_queue i p → Inv size (lock s i p)
    lock-Inv p h = lock_by s.owner refl
      where
        lock_by :
            (owner : Option ℕ)
            → s.owner ≡ owner
            → Inv size (elim owner [
              | none ↦ record s { owner = some i; pc = place_at s.pc i p }
              | some k ↦ s
            ])
        lock_by (some k) e = inv
        lock_by none e = record {
          same_size = inv.same_size;
          order = inv.order;
          bounded = inv.bounded;
          knows = place_at-Knows (some i) s.inner_queue s.pc i p h (λ k ne.
              away-Knows s.owner (some i) s.inner_queue s.inner_queue k (s.pc k)
                (λ held. cc (e, held)) (inv.knows k));
        }

    -- A line with the lock that changes the queue.
    pub change-Inv :
        (ts added removed : List ℕ) (p : Pc)
        → s.owner ≡ some i
        → added ≡ removed ++ ts
        → length ts ≤ size
        → Knows size s.owner ts i p
        → Inv size (record s {
          inner_queue = ts;
          pc = place_at s.pc i p;
          added = added;
          removed = removed;
        })
    change-Inv ts added removed p held order bounded h = record {
      same_size = inv.same_size;
      order = order;
      bounded = bounded;
      knows = place_at-Knows s.owner ts s.pc i p h (λ k ne.
          away-Knows s.owner s.owner s.inner_queue ts k (s.pc k) (others held k ne) (inv.knows k));
    }
