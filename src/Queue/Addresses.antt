-- ===== src/Queue/Addresses.antt =====
-- The addresses that a queue of pointers holds, and the heap there.
use code_snippet.Common.{
  ℕ, suc, ◌≤◌, ◌<◌, ◌≡◌, ◌≢◌, refl, List, [], ◌∷◌, ◌++◌, Bool, false, ◌||◌, Option, arith, ◌==◌,
  ==_iff, map,
}
use code_snippet.Queue.Owned.{set}

-- The addresses ascend, from `low` up to below `next`.
abbrev pub Rising : ℕ → List ℕ → ℕ → Type 0
Rising low [] next = low ≤ next
Rising low (p ∷ ps) next = (low ≤ p) × Rising (suc p) ps next

abbrev pub is_in : ℕ → List ℕ → Bool
is_in p [] = false
is_in p (q ∷ qs) = p == q || is_in p qs

pub Rising-le : (low : ℕ) (ps : List ℕ) (next : ℕ) → Rising low ps next → low ≤ next
Rising-le low [] next h = h
Rising-le low (p ∷ ps) next h = omega (arith, h.0, Rising-le (suc p) ps next h.1)

pub Rising-append :
    (low : ℕ) (ps : List ℕ) (next : ℕ)
    → Rising low ps next
    → Rising low (ps ++ next ∷ []) (suc next)
Rising-append low [] next h = (h, omega arith)
Rising-append low (p ∷ ps) next h = (h.0, Rising-append (suc p) ps next h.1)

pub Rising-lower :
    (low low' : ℕ) (ps : List ℕ) (next : ℕ) → low' ≤ low → Rising low ps next → Rising low' ps next
Rising-lower low low' [] next le h = omega arith
Rising-lower low low' (p ∷ ps) next le h = (omega (arith, h.0), h.1)

pub is_in-append : (p : ℕ) (ps : List ℕ) (q : ℕ) → is_in p (ps ++ q ∷ []) ≡ (is_in p ps || p == q)
is_in-append p [] q = ground arith
is_in-append p (x ∷ ps) q = ground (arith, is_in-append p ps q)

-- No address below the lowest is among them.
pub is_in-below :
    (q low : ℕ) (ps : List ℕ) (next : ℕ) → q < low → Rising low ps next → is_in q ps ≡ false
is_in-below q low [] next less h = refl
is_in-below q low (p ∷ ps) next less h =
    let e = is_in-below q (suc p) ps next (omega (arith, h.0)) h.1 in
    rw (apart (omega (arith, h.0))) e
  where
    apart : q < p → (q == p) ≡ false
    apart lt = ground (arith, ==_iff q p)

module _ {A : Type 0} where
  set-other : (heap : ℕ → Option A) (p : ℕ) (a : Option A) (q : ℕ) → q ≢ p → set heap p a q ≡ heap q
  set-other heap p a q apart = ground (arith, ==_iff q p)

  pub set-same : (heap : ℕ → Option A) (p : ℕ) (a : Option A) → set heap p a p ≡ a
  set-same heap p a = rw ((==_iff p p).1 refl) refl

  -- The heap outside the addresses of the list does not matter to it.
  pub map-set_next :
      (heap : ℕ → Option A) (a : Option A) (low : ℕ) (ps : List ℕ) (next : ℕ)
      → Rising low ps next
      → map (set heap next a) ps ≡ map heap ps
  map-set_next heap a low [] next h = refl
  map-set_next heap a low (p ∷ ps) next h = λ i. other i ∷ map-set_next heap a (suc p) ps next h.1 i
    where
      other : set heap next a p ≡ heap p
      other = set-other heap next a p (ground (arith, Rising-le (suc p) ps next h.1))

  pub map-set_front :
      (heap : ℕ → Option A) (a : Option A) (q low : ℕ) (ps : List ℕ) (next : ℕ)
      → q < low
      → Rising low ps next
      → map (set heap q a) ps ≡ map heap ps
  map-set_front heap a q low [] next less h = refl
  map-set_front heap a q low (p ∷ ps) next less h =
      λ i. other i ∷ map-set_front heap a q (suc p) ps next (omega (arith, h.0)) h.1 i
    where
      other : set heap q a p ≡ heap p
      other = set-other heap q a p (omega (arith, h.0))
