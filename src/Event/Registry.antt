-- ===== src/Event/Registry.antt =====
-- The list of listeners: `RegisterListener` and `UnregisterListener` of EventLooper.cpp.
use code_snippet.Common.{
  ℕ, ◌≡◌, refl, sym, ap, subst, ◌∙◌, inl, inr, List, [], ◌∷◌, ◌++◌, Bool, true, false, not, ◌&&◌,
  ◌||◌, arith, Bool-cases,
}
use code_snippet.Event.{
  Listener, EventLooper, matches, find_listener, remove_listener, is_illegal, register_listener,
  unregister_listener,
}
use code_snippet.Event.Listeners.{
  listener, WellFormed, matches_iff, find-snoc, or_false_inv, WellFormed-snoc, or_nothing,
  found_if_equal,
}

-- The three outcomes of registering.
data Registers (el : EventLooper) (s : ℕ) (t : List ℕ) (h : ℕ) (r : EventLooper × Bool)
    : Type 0 where
  refused : (el.in_loop || is_illegal s t h) ≡ true → r ≡ (el, false) → Registers el s t h r
  known :
      (el.in_loop || is_illegal s t h) ≡ false
      → find_listener s t h el.listeners ≡ true
      → r ≡ (el, true)
      → Registers el s t h r
  added :
      (el.in_loop || is_illegal s t h) ≡ false
      → find_listener s t h el.listeners ≡ false
      → r ≡ (record el { listeners = el.listeners ++ listener s t h ∷ [] }, true)
      → Registers el s t h r

register-Registers :
    (el : EventLooper) (s : ℕ) (t : List ℕ) (h : ℕ)
    → Registers el s t h (register_listener el s t h)
unfolding register_listener
register-Registers el s t h = elim (Bool-cases (el.in_loop || is_illegal s t h)) [
  | inl no_ ↦ refused no_ (rw no_)
  | inr go ↦ elim (Bool-cases (find_listener s t h el.listeners)) [
    | inl old ↦ known go old (rw (go, old))
    | inr new ↦ added go new (rw (go, new))
  ]
]

-- What is asked of registering.
abbrev pub RegisterSpec : EventLooper → ℕ → List ℕ → ℕ → EventLooper × Bool → Type 0
RegisterSpec el s t h r =
    WellFormed r.0.listeners
    × (r.1 ≡ not (el.in_loop || is_illegal s t h))
    × ((s' : ℕ) (t' : List ℕ) (h' : ℕ)
        → find_listener s' t' h' r.0.listeners
          ≡ (find_listener s' t' h' el.listeners || (r.1 && matches s' t' h' (listener s t h))))

Registers-spec :
    (el : EventLooper) (s : ℕ) (t : List ℕ) (h : ℕ) (r : EventLooper × Bool)
    → WellFormed el.listeners
    → Registers el s t h r
    → RegisterSpec el s t h r
Registers-spec el s t h r w (refused no_ e) =
    subst (RegisterSpec el s t h) (sym e)
      (w, rw no_, λ s' t' h'. sym (or_nothing (find_listener s' t' h' el.listeners)))
Registers-spec el s t h r w (known go old e) =
    subst (RegisterSpec el s t h) (sym e)
      (w, rw go, λ s' t' h'. found_if_equal s t h s' t' h' el.listeners old)
Registers-spec el s t h r w (added go new e) = subst (RegisterSpec el s t h) (sym e) (
  WellFormed-snoc s t h el.listeners w new (or_false_inv go).1,
  rw go,
  λ s' t' h'. find-snoc s' t' h' el.listeners (listener s t h),
)

-- Registering keeps the list well formed. It answers true unless the loop runs or an argument is
-- missing. Afterwards a key is found exactly if it was found before or, where the answer was true,
-- it is the registered one.
pub register_listener_lem :
    (el : EventLooper) (s : ℕ) (t : List ℕ) (h : ℕ)
    → WellFormed el.listeners
    → RegisterSpec el s t h (register_listener el s t h)
register_listener_lem el s t h w =
    Registers-spec el s t h (register_listener el s t h) w (register-Registers el s t h)

find-remove :
    (s : ℕ) (t : List ℕ) (h s' : ℕ) (t' : List ℕ) (h' : ℕ) (ls : List Listener)
    → WellFormed ls
    → find_listener s' t' h' (remove_listener s t h ls).0
      ≡ (find_listener s' t' h' ls && not (matches s' t' h' (listener s t h)))
unfolding find_listener remove_listener
find-remove s t h s' t' h' [] w = refl
find-remove s t h s' t' h' (l ∷ ls) w = elim (Bool-cases (matches s t h l)) [
  | inl hit ↦ rw hit (
      removed (matches s' t' h' l) (matches s' t' h' (listener s t h)) (find_listener s' t' h' ls)
        (ap (matches s' t' h') ((matches_iff s t h l).0 hit))
        (λ m.
          ap (λ (x : Listener). find_listener x.event_sender x.event_type x.event_handler ls)
            (sym ((matches_iff s' t' h' (listener s t h)).0 m) ∙ sym ((matches_iff s t h l).0 hit))
          ∙ w.0))
  | inr miss ↦ rw miss (
      kept (matches s' t' h' l) (matches s' t' h' (listener s t h)) _ _
        (find-remove s t h s' t' h' ls w.2)
        (λ m.
          ap (λ (x : Listener). matches x.event_sender x.event_type x.event_handler l)
            (sym ((matches_iff s' t' h' (listener s t h)).0 m))
          ∙ miss))
]
  where
    removed : (a m f : Bool) → a ≡ m → (m ≡ true → f ≡ false) → f ≡ ((a || f) && not m)
    removed a true f e only = only refl ∙ ground arith
    removed a false f e only = rw e (ground arith)

    kept :
        (a m f f' : Bool)
        → f ≡ (f' && not m)
        → (m ≡ true → a ≡ false)
        → (a || f) ≡ ((a || f') && not m)
    kept a true f f' ih only = rw (only refl) ih
    kept true false f f' ih only = refl
    kept false false f f' ih only = ih

remove-find :
    (s : ℕ) (t : List ℕ) (h : ℕ) (ls : List Listener)
    → (remove_listener s t h ls).1 ≡ find_listener s t h ls
unfolding find_listener remove_listener
remove-find s t h [] = refl
remove-find s t h (l ∷ ls) = ground (arith, remove-find s t h ls)

remove-WellFormed :
    (s : ℕ) (t : List ℕ) (h : ℕ) (ls : List Listener)
    → WellFormed ls
    → WellFormed (remove_listener s t h ls).0
unfolding remove_listener
remove-WellFormed s t h [] w = tt
remove-WellFormed s t h (l ∷ ls) w = elim (Bool-cases (matches s t h l)) [
  | inl hit ↦ rw hit w.2
  | inr miss ↦ rw miss (
    find-remove s t h l.event_sender l.event_type l.event_handler ls w.2
        ∙ ap
            (λ (b : Bool).
              b && not (matches l.event_sender l.event_type l.event_handler (listener s t h)))
            w.0,
    w.1,
    remove-WellFormed s t h ls w.2,
  )
]

-- Unregistering keeps the list well formed. It answers true exactly if the loop does not run, no
-- argument is missing and the key was found. Afterwards a key is found exactly if it was found
-- before and, where the loop does not run and no argument is missing, it is not the given one.
pub unregister_listener_lem :
    (el : EventLooper) (s : ℕ) (t : List ℕ) (h : ℕ)
    → WellFormed el.listeners
    → let r = unregister_listener el s t h in
      let accepted = not (el.in_loop || is_illegal s t h) in
      WellFormed r.0.listeners
      × (r.1 ≡ (accepted && find_listener s t h el.listeners))
      × ((s' : ℕ) (t' : List ℕ) (h' : ℕ)
          → find_listener s' t' h' r.0.listeners ≡ (
              find_listener s' t' h' el.listeners
              && not (accepted && matches s' t' h' (listener s t h))))
unfolding unregister_listener
unregister_listener_lem el s t h w = elim (Bool-cases (el.in_loop || is_illegal s t h)) [
  | inl no_ ↦ rw no_ (w, refl, λ s' t' h'. sym (and_true (find_listener s' t' h' el.listeners)))
  | inr go ↦ rw go (
    remove-WellFormed s t h el.listeners w,
    remove-find s t h el.listeners,
    λ s' t' h'. find-remove s t h s' t' h' el.listeners w,
  )
]
  where
    and_true : (b : Bool) → (b && true) ≡ b
    and_true b = ground arith

matches_self : (s : ℕ) (t : List ℕ) (h : ℕ) → matches s t h (listener s t h) ≡ true
matches_self s t h = (matches_iff s t h (listener s t h)).1 refl

remove-snoc :
    (s : ℕ) (t : List ℕ) (h : ℕ) (ls : List Listener)
    → find_listener s t h ls ≡ false
    → remove_listener s t h (ls ++ listener s t h ∷ []) ≡ (ls, true)
unfolding find_listener remove_listener
remove-snoc s t h [] e = rw (matches_self s t h)
remove-snoc s t h (l ∷ ls) e =
    let miss : matches s t h l ≡ false = (or_false_inv e).0 in
    let others : find_listener s t h ls ≡ false = (or_false_inv e).1 in
    rw miss (ap (λ (r : List Listener × Bool). (l ∷ r.0, r.1)) (remove-snoc s t h ls others))

register_new :
    (el : EventLooper) (s : ℕ) (t : List ℕ) (h : ℕ)
    → (el.in_loop || is_illegal s t h) ≡ false
    → find_listener s t h el.listeners ≡ false
    → register_listener el s t h
      ≡ (record el { listeners = el.listeners ++ listener s t h ∷ [] }, true)
unfolding register_listener
register_new el s t h go new = rw (go, new)

unregister_last :
    (el : EventLooper) (s : ℕ) (t : List ℕ) (h : ℕ)
    → (el.in_loop || is_illegal s t h) ≡ false
    → find_listener s t h el.listeners ≡ false
    → unregister_listener (record el { listeners = el.listeners ++ listener s t h ∷ [] }) s t h
      ≡ (el, true)
unfolding unregister_listener
unregister_last el s t h go new = rw go (λ k. (
  record el { listeners = (remove-snoc s t h el.listeners new k).0 },
  (remove-snoc s t h el.listeners new k).1,
))

-- Outside the loop, registering a new and complete key and unregistering it gives the looper back
-- as it was, the order of the listeners included.
pub unregister-register :
    (el : EventLooper) (s : ℕ) (t : List ℕ) (h : ℕ)
    → (el.in_loop || is_illegal s t h) ≡ false
    → find_listener s t h el.listeners ≡ false
    → unregister_listener (register_listener el s t h).0 s t h ≡ (el, true)
unregister-register el s t h go new =
    ap (λ (r : EventLooper × Bool). unregister_listener r.0 s t h) (register_new el s t h go new)
    ∙ unregister_last el s t h go new
