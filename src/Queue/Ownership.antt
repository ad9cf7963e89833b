-- ===== src/Queue/Ownership.antt =====
-- The MutexQueue of pointers of Queue/Owned and the list of objects that it stands for: pushing, and
-- taking out.
use code_snippet.Common.{
  ◌||◌, ==_iff, ℕ, suc, ◌≡◌, refl, sym, ap, ◌∙◌, inl, inr, List, [], ◌∷◌, ◌++◌, Bool, true, false,
  Option, none, some, arith, ◌==◌, if◌then◌else◌, length, map, length-map, ap₂, Bool-cases,
}
use mathlib.Core.List.{map-append}
use code_snippet.Queue.{new_queue, push, push_loop, pop, front}
use code_snippet.Queue.Owned.{Store, Result, gives, waits, new_store, set, push_new, take_out}
use code_snippet.Queue.Addresses.{
  is_in-below, Rising, is_in, Rising-append, Rising-lower, is_in-append, set-same, map-set_next,
  map-set_front,
}

abbrev tail {ℓ} : {A : Type ℓ} → List A → List A
tail [] = []
tail (x ∷ xs) = xs

or_true : (b : Bool) → (b || true) ≡ true
or_true true = refl
or_true false = refl

or_false : (b : Bool) → (b || false) ≡ b
or_false true = refl
or_false false = refl

module _ {A : Type 0} where
  abbrev pub is_object : Option A → Bool
  is_object none = false
  is_object (some a) = true

  pub no_object : (o : Option A) → is_object o ≡ false → o ≡ none
  no_object none e = refl
  no_object (some a) e = absurd (cc e)

  pushed_owned :
      (heap : ℕ → Option A) (ps : List ℕ) (p next : ℕ) (a : A)
      → is_object (heap p) ≡ is_in p ps
      → is_object (set heap next (some a) p) ≡ is_in p (ps ++ next ∷ [])
  pushed_owned heap ps p next a h = by_test (p == next) refl ∙ sym (is_in-append p ps next)
    where
      by_test :
          (same : Bool)
          → (p == next) ≡ same
          → is_object (if same then some a else heap p) ≡ (is_in p ps || same)
      by_test true e = sym (or_true (is_in p ps))
      by_test false e = h ∙ sym (or_false (is_in p ps))

  taken_owned :
      (heap : ℕ → Option A) (ps : List ℕ) (p next q : ℕ)
      → Rising (suc p) ps next
      → is_object (heap q) ≡ is_in q (p ∷ ps)
      → is_object (set heap p none q) ≡ is_in q ps
  taken_owned heap ps p next q rising h = by_test (q == p) refl h
    where
      by_test :
          (same : Bool)
          → (q == p) ≡ same
          → is_object (heap q) ≡ (same || is_in q ps)
          → is_object (if same then none else heap q) ≡ is_in q ps
      by_test true e h' =
          sym (is_in-below q (suc p) ps next (ground (arith, (==_iff q p).0 e)) rising)
      by_test false e h' = h'

  -- The store holds these objects, in this order, and no others; its lock is free.
  pub record Implements (size : ℕ) (s : Store A) (xs : List A) : Type 0 where
    pub free : s.queue.locked ≡ false
    pub sized : s.queue.size ≡ size
    pub rising : Rising 1 s.queue.inner_queue s.next
    pub pointed : map s.heap s.queue.inner_queue ≡ map some xs
    pub owned : (p : ℕ) → is_object (s.heap p) ≡ is_in p s.queue.inner_queue

  pub new_store-Implements : (size : ℕ) → Implements size (new_store size) []
  unfolding new_store new_queue
  new_store-Implements size = record {
    free = refl;
    sized = refl;
    rising = omega arith;
    pointed = refl;
    owned = λ p. refl;
  }

  pub Implements-length :
      (size : ℕ) (s : Store A) (xs : List A)
      → Implements size s xs
      → length s.queue.inner_queue ≡ length xs
  Implements-length size s xs h =
      sym (length-map s.heap s.queue.inner_queue) ∙ ap length h.pointed ∙ length-map some xs

  -- What a push is to come to: it waits when the queue is full.
  abbrev pub Pushes : ℕ → Result A Bool → Option (List A) → Type 0
  Pushes size (gives s added) (some xs) = Implements size s xs × (added ≡ true)
  Pushes size waits none = Unit
  Pushes size _ _ = ⊥

  abbrev pub Takes : ℕ → Result A A → List A → Type 0
  Takes size (gives s a) (x ∷ xs) = Implements size s xs × (a ≡ x)
  Takes size waits [] = Unit
  Takes size _ _ = ⊥

  pushed-Implements :
      (size : ℕ) (s : Store A) (xs : List A) (a : A)
      → Implements size s xs
      → Implements size
          (record s {
            queue = record {
              size = s.queue.size;
              inner_queue = s.queue.inner_queue ++ s.next ∷ [];
              locked = false;
            };
            heap = set s.heap s.next (some a);
            next = suc s.next;
          })
          (xs ++ a ∷ [])
  pushed-Implements size s xs a h = record {
    free = refl;
    sized = h.sized;
    rising = Rising-append 1 s.queue.inner_queue s.next h.rising;
    pointed =
        map-append (set s.heap s.next (some a)) s.queue.inner_queue (s.next ∷ [])
        ∙ ap₂ ◌++◌ (map-set_next s.heap (some a) 1 s.queue.inner_queue s.next h.rising ∙ h.pointed)
            (ap (λ (o : Option A). o ∷ []) (set-same s.heap s.next (some a)))
        ∙ sym (map-append some xs (a ∷ []));
    owned = λ p. pushed_owned s.heap s.queue.inner_queue p s.next a (h.owned p);
  }

  pub push_new-Pushes :
      (size : ℕ) (s : Store A) (xs : List A) (a : A)
      → Implements size s xs
      → Pushes size (push_new s a) (if length xs == size then none else some (xs ++ a ∷ []))
  unfolding push_new push push_loop
  push_new-Pushes size s xs a h = elim (Bool-cases (length xs == size)) [
    | inl full ↦ rw h.free (rw (same_test ∙ full) (rw full tt))
    | inr room ↦ rw h.free (rw (same_test ∙ room) (rw room (pushed-Implements size s xs a h, refl)))
  ]
    where
      same_test : (length s.queue.inner_queue == s.queue.size) ≡ (length xs == size)
      same_test = λ i. Implements-length size s xs h i == h.sized i

  abbrev pub store : ℕ → List ℕ → Bool → (ℕ → Option A) → ℕ → Store A
  store n ts locked heap next = record {
    queue = record { size = n; inner_queue = ts; locked = locked };
    heap = heap;
    next = next;
  }

  taken-Implements :
      (size n p : ℕ) (ps : List ℕ) (heap : ℕ → Option A) (next : ℕ) (x : A) (xs : List A)
      → Implements size (store n (p ∷ ps) false heap next) (x ∷ xs)
      → Implements size (store n ps false (set heap p none) next) xs
  taken-Implements size n p ps heap next x xs h = record {
    free = refl;
    sized = h.sized;
    rising = Rising-lower (suc p) 1 ps next (omega arith) h.rising.1;
    pointed =
        map-set_front heap none p (suc p) ps next (omega arith) h.rising.1 ∙ ap tail h.pointed;
    owned = λ q. taken_owned heap ps p next q h.rising.1 (h.owned q);
  }

  take_out-by_fields :
      (size n : ℕ) (ts : List ℕ) (locked : Bool) (heap : ℕ → Option A) (next : ℕ) (xs : List A)
      → Implements size (store n ts locked heap next) xs
      → Takes size (take_out (store n ts locked heap next)) xs
  unfolding take_out front pop
  take_out-by_fields size n ts true heap next xs h = absurd (cc h.free)
  take_out-by_fields size n [] false heap next [] h = tt
  take_out-by_fields size n [] false heap next (x ∷ xs) h = absurd (cc h.pointed)
  take_out-by_fields size n (p ∷ ps) false heap next [] h = absurd (cc h.pointed)
  take_out-by_fields size n (p ∷ ps) false heap next (x ∷ xs) h =
      rw first (taken-Implements size n p ps heap next x xs h, refl)
    where
      first : heap p ≡ some x
      first = cc h.pointed

  pub take_out-Takes :
      (size : ℕ) (s : Store A) (xs : List A) → Implements size s xs → Takes size (take_out s) xs
  take_out-Takes size s xs h =
      take_out-by_fields size s.queue.size s.queue.inner_queue s.queue.locked s.heap s.next xs h
