-- ===== src/Sessions/Map.antt =====
-- The sessions that are found after they were added or cleaned.
use code_snippet.Common.{
  ℕ, ◌≤◌, ◌<◌, ◌≡◌, ◌≢◌, refl, sym, ap, ◌∙◌, inl, inr, List, [], ◌∷◌, Bool, true, false, not, ◌||◌,
  Option, none, some, arith, ltb, ◌==◌, ==_iff, if◌then◌else◌, Bool-cases, ltb→lt, ltb_false→le,
}
use code_snippet.Socket.Client.{ClientSocket, is_connected, close}
use code_snippet.Sessions.{
  Sessions, insert, add_session, lookup, find_session_by_fd, clean_sessions,
}

abbrev pub AllAbove : ℕ → Sessions → Type 0
AllAbove n [] = Unit {0}
AllAbove n ((k, c) ∷ ss) = (n < k) × AllAbove n ss

-- The keys of a std::map are in order, and no two are the same.
abbrev pub Sorted : Sessions → Type 0
Sorted [] = Unit {0}
Sorted ((k, c) ∷ ss) = AllAbove k ss × Sorted ss

raise_bound : (m n : ℕ) (ss : Sessions) → m ≤ n → AllAbove n ss → AllAbove m ss
raise_bound m n [] h above = tt
raise_bound m n ((k, c) ∷ ss) h above = (omega (arith, above.0), raise_bound m n ss h above.1)

pub not_below : (n : ℕ) (ss : Sessions) → AllAbove n ss → lookup n ss ≡ none
unfolding lookup
not_below n [] above = refl
not_below n ((k, c) ∷ ss) above = ground (arith, above.0, not_below n ss above.1)

insert-AllAbove :
    (n fd : ℕ) (c : ClientSocket) (ss : Sessions)
    → n < fd
    → AllAbove n ss
    → AllAbove n (insert fd c ss)
unfolding insert
insert-AllAbove n fd c [] h above = (h, tt)
insert-AllAbove n fd c ((k, d) ∷ ss) h above = elim (Bool-cases (fd == k)) [
  | inl same ↦ rw same above
  | inr other ↦ elim (Bool-cases (ltb fd k)) [
    | inl here ↦ rw (other, here) (h, above)
    | inr later ↦ rw (other, later) (above.0, insert-AllAbove n fd c ss h above.1)
  ]
]

differs : (a b : ℕ) → (a == b) ≡ false → a ≢ b
differs a b h e = cc (h, (==_iff a b).1 e)

insert-Sorted : (fd : ℕ) (c : ClientSocket) (ss : Sessions) → Sorted ss → Sorted (insert fd c ss)
unfolding insert
insert-Sorted fd c [] s = (tt, tt)
insert-Sorted fd c ((k, d) ∷ ss) s = elim (Bool-cases (fd == k)) [
  | inl same ↦ rw same s
  | inr other ↦ elim (Bool-cases (ltb fd k)) [
    | inl here ↦
        rw (other, here)
          ((ltb→lt _ _ here, raise_bound fd k ss (omega (arith, ltb→lt _ _ here)) s.0), s)
    | inr later ↦
        rw (other, later)
          (
            insert-AllAbove k fd c ss (omega (arith, ltb_false→le _ _ later, differs fd k other))
                s.0,
            insert-Sorted fd c ss s.1,
          )
  ]
]

-- The session that a key has, or this one.
abbrev pub or_else : Option ClientSocket → ClientSocket → ClientSocket
or_else none c = c
or_else (some d) c = d

insert-lookup :
    (fd n : ℕ) (c : ClientSocket) (ss : Sessions)
    → Sorted ss
    → lookup n (insert fd c ss) ≡ (if n == fd then some (or_else (lookup fd ss) c) else lookup n ss)
unfolding insert lookup
insert-lookup fd n c [] s = refl
insert-lookup fd n c ((k, d) ∷ ss) s =
    ground (arith, insert-lookup fd n c ss s.1, not_below fd ss, raise_bound fd k ss)

-- A new session is found under its descriptor, unless that has a session already, which then stays;
-- all the other descriptors find what they found before, and the keys stay in order.
pub add_session-find :
    (ss : Sessions) (c : ClientSocket) (n : ℕ)
    → Sorted ss
    → 0 < c.fd
    → Sorted (add_session ss c)
      × (find_session_by_fd n (add_session ss c) ≡ (
          if n == c.fd
          then some (or_else (find_session_by_fd c.fd ss) c)
          else find_session_by_fd n ss))
unfolding add_session find_session_by_fd
add_session-find ss c n s positive =
    (insert-Sorted c.fd c ss s, ground (arith, insert-lookup c.fd n c ss s))

abbrev pub kept : Bool → Option ClientSocket → Option ClientSocket
kept force none = none
kept force (some c) = if force || not (is_connected c) then none else some c

-- No descriptor is closed.
abbrev pub NothingClosed : List (ClientSocket × Option ℕ) → Type 0
NothingClosed [] = Unit {0}
NothingClosed ((c, fd) ∷ gone) = (fd ≡ none) × NothingClosed gone

clean-AllAbove :
    (n : ℕ) (force : Bool) (ss : Sessions) → AllAbove n ss → AllAbove n (clean_sessions force ss).0
unfolding clean_sessions
clean-AllAbove n force [] above = tt
clean-AllAbove n force ((k, c) ∷ ss) above = elim (Bool-cases (force || not (is_connected c))) [
  | inl goes ↦ rw goes (clean-AllAbove n force ss above.1)
  | inr stays ↦ rw stays (above.0, clean-AllAbove n force ss above.1)
]

clean-Sorted : (force : Bool) (ss : Sessions) → Sorted ss → Sorted (clean_sessions force ss).0
unfolding clean_sessions
clean-Sorted force [] s = tt
clean-Sorted force ((k, c) ∷ ss) s = elim (Bool-cases (force || not (is_connected c))) [
  | inl goes ↦ rw goes (clean-Sorted force ss s.1)
  | inr stays ↦ rw stays (clean-AllAbove k force ss s.0, clean-Sorted force ss s.1)
]

clean-lookup :
    (force : Bool) (n : ℕ) (ss : Sessions)
    → Sorted ss
    → lookup n (clean_sessions force ss).0 ≡ kept force (lookup n ss)
unfolding clean_sessions lookup
clean-lookup force n [] s = refl
clean-lookup force n ((k, c) ∷ ss) s = elim (Bool-cases (force || not (is_connected c))) [
  | inl goes ↦ elim (Bool-cases (n == k)) [
    | inl same ↦
        rw (goes, same) (clean-lookup force n ss s.1 ∙ gone_after same ∙ sym (rw goes refl))
    | inr other ↦ rw (goes, other) (clean-lookup force n ss s.1)
  ]
  | inr stays ↦ elim (Bool-cases (n == k)) [
    | inl same ↦ rw (stays, same) (sym (rw stays refl))
    | inr other ↦ rw (stays, other) (clean-lookup force n ss s.1)
  ]
]
  where
    gone_after : (n == k) ≡ true → kept force (lookup n ss) ≡ none
    gone_after same =
        ap (λ (m : ℕ). kept force (lookup m ss)) ((==_iff n k).0 same)
        ∙ ap (kept force) (not_below k ss s.0)

clean-NothingClosed : (ss : Sessions) → NothingClosed (clean_sessions false ss).1
unfolding clean_sessions is_connected close
clean-NothingClosed [] = tt
clean-NothingClosed ((k, c) ∷ ss) = elim (Bool-cases (ltb 0 c.fd)) [
  | inl open_ ↦ rw open_ (clean-NothingClosed ss)
  | inr closed ↦ rw closed (refl, clean-NothingClosed ss)
]

-- After cleanSessions a descriptor finds what it found before, if that is connected and the cleaning
-- was not forced, and nothing otherwise; the keys stay in order; and a cleaning that is not forced
-- closes no descriptor, since the sessions that go are closed already.
pub clean_sessions-find :
    (ss : Sessions) (force : Bool) (n : ℕ)
    → Sorted ss
    → Sorted (clean_sessions force ss).0
      × (find_session_by_fd n (clean_sessions force ss).0 ≡ kept force (find_session_by_fd n ss))
      × NothingClosed (clean_sessions false ss).1
unfolding find_session_by_fd
clean_sessions-find ss force n s = (clean-Sorted force ss s, found (n == 0), clean-NothingClosed ss)
  where
    found :
        (nobody : Bool)
        → (if nobody then none else lookup n (clean_sessions force ss).0)
          ≡ kept force (if nobody then none else lookup n ss)
    found true = refl
    found false = clean-lookup force n ss s
