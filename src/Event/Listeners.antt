-- ===== src/Event/Listeners.antt =====
-- Well-formed lists of listeners, and a listener added at the end.
use code_snippet.Common.{
  ℕ, ◌≡◌, ◌↔◌, refl, sym, ap, ◌∙◌, inl, inr, List, [], ◌∷◌, ◌++◌, Bool, true, false, ◌&&◌, ◌||◌,
  arith, Bool-cases, text_eq_iff,
}
use code_snippet.Event.{Listener, matches, find_listener, is_illegal}

abbrev pub listener : ℕ → List ℕ → ℕ → Listener
listener s t h = record { event_sender = s; event_type = t; event_handler = h }

pub matches_iff :
    (s : ℕ) (t : List ℕ) (h : ℕ) (l : Listener) → (matches s t h l ≡ true) ↔ (l ≡ listener s t h)
matches_iff s t h l = ground (arith, text_eq_iff t l.event_type)

-- No two listeners have the same sender, type and handler, and none has a NULL among them.
abbrev pub WellFormed : List Listener → Type 0
WellFormed [] = Unit {0}
WellFormed (l ∷ ls) =
    (find_listener l.event_sender l.event_type l.event_handler ls ≡ false)
    × (is_illegal l.event_sender l.event_type l.event_handler ≡ false)
    × WellFormed ls

pub find-snoc :
    (s : ℕ) (t : List ℕ) (h : ℕ) (ls : List Listener) (x : Listener)
    → find_listener s t h (ls ++ x ∷ []) ≡ (find_listener s t h ls || matches s t h x)
unfolding find_listener
find-snoc s t h [] x = ground arith
find-snoc s t h (l ∷ ls) x = ground (arith, find-snoc s t h ls x)

pub matches_comm :
    (s : ℕ) (t : List ℕ) (h : ℕ) (l : Listener)
    → matches s t h l ≡ matches l.event_sender l.event_type l.event_handler (listener s t h)
matches_comm s t h l = ground (arith, text_eq_iff t l.event_type, text_eq_iff l.event_type t)

pub or_false : {a b : Bool} → a ≡ false → b ≡ false → (a || b) ≡ false
or_false p q = ground arith

pub or_false_inv : {a b : Bool} → (a || b) ≡ false → (a ≡ false) × (b ≡ false)
or_false_inv h = ground arith

pub WellFormed-snoc :
    (s : ℕ) (t : List ℕ) (h : ℕ) (ls : List Listener)
    → WellFormed ls
    → find_listener s t h ls ≡ false
    → is_illegal s t h ≡ false
    → WellFormed (ls ++ listener s t h ∷ [])
unfolding find_listener
WellFormed-snoc s t h [] w none legal = (refl, legal, tt)
WellFormed-snoc s t h (l ∷ ls) w none legal = (
  find-snoc l.event_sender l.event_type l.event_handler ls (listener s t h)
      ∙ or_false w.0 (sym (matches_comm s t h l) ∙ (or_false_inv none).0),
  w.1,
  WellFormed-snoc s t h ls w.2 (or_false_inv none).1 legal,
)

pub or_true : (b : Bool) → (b || true) ≡ true
or_true b = ground arith

pub or_nothing : (b : Bool) → (b || false) ≡ b
or_nothing b = ground arith

pub found_if_equal :
    (s : ℕ) (t : List ℕ) (h s' : ℕ) (t' : List ℕ) (h' : ℕ) (ls : List Listener)
    → find_listener s t h ls ≡ true
    → find_listener s' t' h' ls
      ≡ (find_listener s' t' h' ls || (true && matches s' t' h' (listener s t h)))
found_if_equal s t h s' t' h' ls found = elim (Bool-cases (matches s' t' h' (listener s t h))) [
  | inl same ↦
      let key : listener s t h ≡ listener s' t' h' =
        (matches_iff s' t' h' (listener s t h)).0 same in
      rw same (
        ap (λ (l : Listener). find_listener l.event_sender l.event_type l.event_handler ls)
          (sym key)
        ∙ found
        ∙ sym (or_true (find_listener s' t' h' ls)))
  | inr other ↦ rw other (sym (or_nothing (find_listener s' t' h' ls)))
]
