-- ===== src/Queue/Alert.antt =====
-- ffos/ota/include/utils/MutexQueue.h: what the thread that waits for an element can count on, and what one
-- step does to it.
use code_snippet.Common.{
  ℕ, ◌≡◌, ◌≢◌, refl, sym, ◌∙◌, ◌⊎◌, inl, inr, List, [], ◌∷◌, Bool, true, false, Option, none, some,
  arith, ◌==◌, ==_iff, if◌then◌else◌,
}
use code_snippet.Queue.Threads.{
  Pc, idle, push_signals, front_waits, unlocks, Shared, place_at, move, lock, unlock, signalled,
  Choice, calls_push, takes, runs,
}

-- As planned, and a signal wakes the taking thread if it waits, which alone waits for the condition.
abbrev pub IsFair : ℕ → ℕ → Choice → Type 0
IsFair c i (runs j) = j ≡ c
IsFair c i (calls_push t) = Unit
IsFair c i takes = i ≡ c
IsFair c i _ = ⊥

abbrev pub AreFair : ℕ → List (ℕ × Choice) → Type 0
AreFair c [] = Unit
AreFair c ((i, e) ∷ es) = IsFair c i e × AreFair c es

-- While the thread waits for an element there is none, or a signal is about to be sent.
abbrev pub IsAlert : ℕ → Shared → Type 0
IsAlert c s =
    (b : Bool) → s.pc c ≡ front_waits b → (s.inner_queue ≡ []) ⊎ ((k : ℕ) × (s.pc k ≡ push_signals))

module _ (c : ℕ) where
  -- Thread `i` goes on at `p`, and the queue changes.
  module _ (s : Shared) (i : ℕ) (alert : IsAlert c s) (quiet : s.pc i ≢ push_signals) where
    pub go-IsAlert :
        (owner : Option ℕ) (ts added removed : List ℕ) (p : Pc)
        → ((i ≡ c) ⊎ ((ts ≡ s.inner_queue) ⊎ (p ≡ push_signals)))
        → ((b : Bool) → p ≡ front_waits b → ts ≡ [])
        → IsAlert c (record s {
          inner_queue = ts;
          owner = owner;
          pc = place_at s.pc i p;
          added = added;
          removed = removed;
        })
    go-IsAlert owner ts added removed p keeps own b waiting = by_test (c == i) refl waiting
      where
        Result : Type 0
        Result = (ts ≡ []) ⊎ ((k : ℕ) × (place_at s.pc i p k ≡ push_signals))

        here : p ≡ push_signals → place_at s.pc i p i ≡ push_signals
        here e = rw ((==_iff i i).1 refl) e

        apart : (k : ℕ) → s.pc k ≡ push_signals → (k == i) ≡ false
        apart k e = ground (arith, (==_iff k i))

        there : (k : ℕ) → s.pc k ≡ push_signals → place_at s.pc i p k ≡ push_signals
        there k e = rw (apart k e) e

        transfer :
            ts ≡ s.inner_queue → (s.inner_queue ≡ []) ⊎ ((k : ℕ) × (s.pc k ≡ push_signals)) → Result
        transfer kept (inl empty) = inl (kept ∙ empty)
        transfer kept (inr (k, e)) = inr (k, there k e)

        by_test :
            (same : Bool) → (c == i) ≡ same → (if same then p else s.pc c) ≡ front_waits b → Result
        by_test true e w = inl (own b w)
        by_test false e w = elim keeps [
          | inl same ↦ absurd (cc (e, (==_iff c i).1 (sym same)))
          | inr (inl kept) ↦ transfer kept (alert b w)
          | inr (inr signals) ↦ inr (i, here signals)
        ]

    -- The lock and the queue stay as they are.
    pub move-IsAlert :
        (p : Pc) → ((b : Bool) → p ≡ front_waits b → s.inner_queue ≡ []) → IsAlert c (move s i p)
    move-IsAlert p own = go-IsAlert s.owner s.inner_queue s.added s.removed p (inr (inl refl)) own

    pub unlock-IsAlert :
        (p : Pc) → ((b : Bool) → p ≡ front_waits b → s.inner_queue ≡ []) → IsAlert c (unlock s i p)
    unlock-IsAlert p own = go-IsAlert none s.inner_queue s.added s.removed p (inr (inl refl)) own

    pub lock-IsAlert :
        (p : Pc) → ((b : Bool) → p ≡ front_waits b → s.inner_queue ≡ []) → IsAlert c (lock s i p)
    lock-IsAlert p own = lock_by s.owner
      where
        lock_by :
            (owner : Option ℕ)
            → IsAlert c (elim owner [
              | none ↦ record s { owner = some i; pc = place_at s.pc i p }
              | some k ↦ s
            ])
        lock_by (some k) = alert
        lock_by none = go-IsAlert (some i) s.inner_queue s.added s.removed p (inr (inl refl)) own

  -- The signal wakes the thread.
  pub signal-IsAlert :
      (s : Shared) (i : ℕ) → IsAlert c (move (move s c (signalled (s.pc c))) i (unlocks idle))
  signal-IsAlert s i b waiting = absurd (by_test (c == i) waiting)
    where
      not_waiting : (p : Pc) → signalled p ≢ front_waits b
      not_waiting (front_waits b') e = cc e
      not_waiting _ e = ground arith

      self : place_at s.pc c (signalled (s.pc c)) c ≡ signalled (s.pc c)
      self = rw ((==_iff c c).1 refl) refl

      by_test :
          (same : Bool)
          → (if same then unlocks idle else place_at s.pc c (signalled (s.pc c)) c) ≡ front_waits b
          → ⊥
      by_test true w = cc w
      by_test false w = not_waiting (s.pc c) (sym self ∙ w)
