-- ===== src/Sessions/Removal.antt =====
-- The sessions that are found after one was removed.
use code_snippet.Common.{
  ℕ, ◌≡◌, refl, ap, ◌∙◌, inl, inr, [], ◌∷◌, Option, none, some, arith, ◌==◌, ==_iff, if◌then◌else◌,
  Bool-cases, Option-cases,
}
use code_snippet.Socket.Client.{ClientSocket}
use code_snippet.Sessions.{Sessions, lookup, erase, remove_session}
use code_snippet.Sessions.Map.{AllAbove, Sorted, not_below}

erase-AllAbove : (n fd : ℕ) (ss : Sessions) → AllAbove n ss → AllAbove n (erase fd ss)
unfolding erase
erase-AllAbove n fd [] h = tt
erase-AllAbove n fd ((k, c) ∷ ss) h = elim (Bool-cases (fd == k)) [
  | inl here ↦ rw here h.1
  | inr later ↦ rw later (h.0, erase-AllAbove n fd ss h.1)
]

erase-Sorted : (fd : ℕ) (ss : Sessions) → Sorted ss → Sorted (erase fd ss)
unfolding erase
erase-Sorted fd [] h = tt
erase-Sorted fd ((k, c) ∷ ss) h = elim (Bool-cases (fd == k)) [
  | inl here ↦ rw here h.1
  | inr later ↦ rw later (erase-AllAbove k fd ss h.0, erase-Sorted fd ss h.1)
]

erase-lookup :
    (fd n : ℕ) (ss : Sessions)
    → Sorted ss
    → lookup n (erase fd ss) ≡ (if n == fd then none else lookup n ss)
unfolding erase lookup
erase-lookup fd n [] h = ground arith
erase-lookup fd n ((k, c) ∷ ss) h = ground (arith, not_below k ss h.0, erase-lookup fd n ss h.1)

remaining :
    (ss : Sessions) (c : ClientSocket) (o : Option ClientSocket)
    → lookup c.fd ss ≡ o
    → (remove_session (some c) ss).0
      ≡ elim o as (λ x. Sessions) [ none ↦ ss | some d ↦ erase c.fd ss ]
unfolding remove_session
remaining ss c none e = rw (e, remove_session) refl
remaining ss c (some d) e = rw (e, remove_session) refl

absent :
    (fd n : ℕ) (ss : Sessions)
    → lookup fd ss ≡ none
    → lookup n ss ≡ (if n == fd then none else lookup n ss)
absent fd n ss h = elim (Bool-cases (n == fd)) [
  | inl same ↦ rw same (ap (λ (k : ℕ). lookup k ss) ((==_iff n fd).0 same) ∙ h)
  | inr other ↦ rw other refl
]

-- removeSession on the sessions in order: the key of the socket is gone, if it was there, every other key
-- finds what it found, and the order stays.
pub remove_session-lookup :
    (ss : Sessions) (c : ClientSocket) (n : ℕ)
    → Sorted ss
    → Sorted (remove_session (some c) ss).0
      × (lookup n (remove_session (some c) ss).0 ≡ (if n == c.fd then none else lookup n ss))
remove_session-lookup ss c n h = elim (Option-cases (lookup c.fd ss)) [
  | inl missing ↦ rw (remaining ss c none missing) (h, absent c.fd n ss missing)
  | inr (d, found) ↦
      rw (remaining ss c (some d) found) (erase-Sorted c.fd ss h, erase-lookup c.fd n ss h)
]
