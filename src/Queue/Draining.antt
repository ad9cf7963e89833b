-- ===== src/Queue/Draining.antt =====
-- ffos/ota/include/utils/MutexQueue.h: taking everything out of a queue of pointers.
use code_snippet.Common.{
  ℕ, zero, suc, ◌≤◌, ◌≡◌, refl, ap, List, [], ◌∷◌, Bool, Option, none, arith, ltb, length, lt→ltb,
}
use code_snippet.Queue.Owned.{Store, Result, gives, waits, undefined, take_out, and_object, drain}
use code_snippet.Queue.Ownership.{
  Implements, Takes, take_out-Takes, Implements-length, store, no_object,
}

module _ {A : Type 0} where
  -- What `drain` is to come to for these objects.
  abbrev pub Drains : ℕ → Result A (List A) → List A → Type 0
  Drains size (gives s objects) xs = Implements size s [] × (objects ≡ xs)
  Drains size waits xs = ⊥
  Drains size undefined xs = ⊥

  and_object-Drains :
      (size : ℕ) (r : Result A (List A)) (a x : A) (xs : List A)
      → Drains size r xs
      → a ≡ x
      → Drains size (and_object a r) (x ∷ xs)
  and_object-Drains size (gives s objects) a x xs h e = (h.0, λ i. e i ∷ h.1 i)
  and_object-Drains size waits a x xs h e = absurd h
  and_object-Drains size undefined a x xs h e = absurd h

  drain_next :
      (size fuel : ℕ) (r : Result A A) (x : A) (xs : List A)
      → Takes size r (x ∷ xs)
      → ((s : Store A) → Implements size s xs → Drains size (drain fuel s) xs)
      → Drains size
          (elim r [
            | gives s' a ↦ and_object a (drain fuel s')
            | waits ↦ waits
            | undefined ↦ undefined
          ])
          (x ∷ xs)
  drain_next size fuel (gives s a) x xs h rest =
      and_object-Drains size (drain fuel s) a x xs (rest s h.0) h.1
  drain_next size fuel waits x xs h rest = absurd h
  drain_next size fuel undefined x xs h rest = absurd h

  pub drain-Drains :
      (size fuel : ℕ) (s : Store A) (xs : List A)
      → Implements size s xs
      → length xs ≤ fuel
      → Drains size (drain fuel s) xs
  unfolding drain
  drain-Drains size zero s [] h enough = (h, refl)
  drain-Drains size zero s (x ∷ xs) h enough = absurd (omega arith)
  drain-Drains size (suc fuel) s [] h enough =
      rw (ap (ltb 0) (Implements-length size s [] h)) (h, refl)
  drain-Drains size (suc fuel) s (x ∷ xs) h enough =
      rw (ap (ltb 0) (Implements-length size s (x ∷ xs) h)) (
        rw (lt→ltb 0 (suc (length xs)) (omega arith)) (
          drain_next size fuel (take_out s) x xs (take_out-Takes size s (x ∷ xs) h)
            (λ s' h'. drain-Drains size fuel s' xs h' (omega arith))))

  -- The same, with nothing left on the heap.
  abbrev pub Deletes : Result A (List A) → List A → Type 0
  Deletes (gives s objects) xs = (objects ≡ xs) × ((p : ℕ) → s.heap p ≡ none)
  Deletes waits xs = ⊥
  Deletes undefined xs = ⊥

  empty_heap :
      (size n : ℕ) (ts : List ℕ) (locked : Bool) (heap : ℕ → Option A) (next : ℕ)
      → Implements size (store n ts locked heap next) []
      → (p : ℕ) → heap p ≡ none
  empty_heap size n [] locked heap next h p = no_object (heap p) (h.owned p)
  empty_heap size n (t ∷ ts) locked heap next h p = absurd (cc h.pointed)

  Drains-Deletes :
      (size : ℕ) (r : Result A (List A)) (xs : List A) → Drains size r xs → Deletes r xs
  Drains-Deletes size (gives s objects) xs h =
      (h.1, empty_heap size s.queue.size s.queue.inner_queue s.queue.locked s.heap s.next h.0)
  Drains-Deletes size waits xs h = absurd h
  Drains-Deletes size undefined xs h = absurd h

  pub drain-Deletes :
      (size fuel : ℕ) (s : Store A) (xs : List A)
      → Implements size s xs
      → length xs ≤ fuel
      → Deletes (drain fuel s) xs
  drain-Deletes size fuel s xs h enough =
      Drains-Deletes size (drain fuel s) xs (drain-Drains size fuel s xs h enough)
