-- ===== src/Json/Objects.antt =====
-- Objects that are built member by member, and what reading the printed object gives.
use code_snippet.Common.{
  ℕ, ◌^◌, ◌<◌, ◌≡◌, ◌∙◌, inl, inr, List, [], ◌∷◌, Bool, Option, none, some, text_eq, if◌then◌else◌,
  Bool-cases,
}
use code_snippet.Json.{Json, IsText, IsObject, Laws, get_string, get_double, get_bool}

module _ (j : Json) where
  open j use {Value, parse, print, get, put, empty, text, number, boolean}

  abbrev pub build : List (List ℕ × Value) → Value
  build [] = empty
  build ((k, v) ∷ ms) = put k v (build ms)

  abbrev pub member : List ℕ → List (List ℕ × Value) → Option Value
  member k [] = none
  member k ((k', v) ∷ ms) = if text_eq k k' then some v else member k ms

  pub build-IsObject : (ms : List (List ℕ × Value)) → IsObject j (build ms)
  build-IsObject [] = IsObject.new
  build-IsObject ((k, v) ∷ ms) = IsObject.with_member k v (build ms) (build-IsObject ms)

  module _ (laws : Laws j) where
    pub get-build :
        (ms : List (List ℕ × Value)) (k : List ℕ) (v : Value)
        → member k ms ≡ some v
        → get (build ms) k ≡ some v
    get-build [] k v h = cc h
    get-build ((k', v') ∷ ms) k v h =
        laws.get-put k' k v' (build ms) (build-IsObject ms) ∙ (elim (Bool-cases (text_eq k k')) [
          | inl here ↦ rw here (rw here at h)
          | inr later ↦ rw later (get-build ms k v (rw later at h))
        ])

    -- The object that the printed one is read as.
    pub read_as : List (List ℕ × Value) → Value
    read_as ms = (laws.reads_back (build ms) (build-IsObject ms)).0

    pub parse-print : (ms : List (List ℕ × Value)) → parse (print (build ms)) ≡ some (read_as ms)
    unfolding read_as
    parse-print ms = (laws.reads_back (build ms) (build-IsObject ms)).1

    module _ (ms : List (List ℕ × Value)) (k : List ℕ) where
      pub read_string :
          (t : List ℕ)
          → IsText t
          → member k ms ≡ some (text t)
          → get_string j (read_as ms) k ≡ some t
      unfolding read_as get_string
      read_string t plain h =
          rw
            ((laws.reads_back (build ms) (build-IsObject ms)).2.text_kept k t plain
              (get-build ms k (text t) h))
            (laws.as_string-text t)

      pub read_double :
          (n : ℕ)
          → n < 2 ^ 53
          → member k ms ≡ some (number n)
          → get_double j (read_as ms) k ≡ some n
      unfolding read_as get_double
      read_double n small h =
          (laws.reads_back (build ms) (build-IsObject ms)).2.number_kept k n small
            (get-build ms k (number n) h)

      pub read_bool :
          (b : Bool) → member k ms ≡ some (boolean b) → get_bool j (read_as ms) k ≡ some b
      unfolding read_as get_bool
      read_bool b h =
          rw
            ((laws.reads_back (build ms) (build-IsObject ms)).2.boolean_kept k b
              (get-build ms k (boolean b) h))
            (laws.as_bool-boolean b)
