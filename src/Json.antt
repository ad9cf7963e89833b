-- ===== src/Json.antt =====
-- The JSON library (ffos/ota/src/json, a copy of jsoncpp) as the code uses it: an interface of
-- operations and of the laws that it documents for them. A failed JSON_ASSERT or JSON_FAIL is `none`.
-- Numbers are sizes and counts, which a double holds exactly below 2 ^ 53.
pub mod Objects
pub mod Sample
use code_snippet.Common.{
  ℕ, ◌^◌, ◌≤◌, ◌<◌, ◌≡◌, ◌≢◌, List, [], ◌∷◌, ◌++◌, Bool, true, false, Option, none, some, ◌>>=◌,
  text_eq, if◌then◌else◌,
}

pub record Json : Type 1 where
  pub Value : Type 0
  -- Reader::parse, and toString
  pub parse : List ℕ → Option Value
  pub print : Value → List ℕ
  -- `value[key]`, `object[key] = value`, and the empty object that Value() becomes
  pub get : Value → List ℕ → Option Value
  pub put : List ℕ → Value → Value → Value
  pub empty : Value
  pub is_null : Value → Bool
  pub text : List ℕ → Value
  pub number : ℕ → Value
  pub boolean : Bool → Value
  pub as_string : Value → Option (List ℕ)
  pub as_double : Value → Option ℕ
  pub as_bool : Value → Option Bool

-- No NUL, which ends a char array.
abbrev pub IsText : List ℕ → Type 0
IsText [] = Unit {0}
IsText (c ∷ cs) = (c ≢ 0) × IsText cs

module _ (j : Json) where
  open j use {
    Value, parse, print, get, put, empty, is_null, text, number, boolean, as_string, as_double,
    as_bool,
  }

  -- What reading a printed object keeps of it.
  pub record ReadsBack (v w : Value) : Type 0 where
    pub text_kept : (k t : List ℕ) → IsText t → get v k ≡ some (text t) → get w k ≡ some (text t)
    pub number_kept :
        (k : List ℕ) (n : ℕ)
        → n < 2 ^ 53
        → get v k ≡ some (number n)
        → (get w k >>= as_double) ≡ some n
    pub boolean_kept :
        (k : List ℕ) (b : Bool) → get v k ≡ some (boolean b) → get w k ≡ some (boolean b)

  -- The values that `empty` and `put` build, and what reading them printed gives.
  pub data IsObject : Value → Type 0 where
    new : IsObject empty
    with_member : (k : List ℕ) (v o : Value) → IsObject o → IsObject (put k v o)
    read_again : (o w : Value) → IsObject o → parse (print o) ≡ some w → IsObject w

  -- The documented behaviour.
  pub record Laws : Type 0 where
    pub as_string-text : (t : List ℕ) → as_string (text t) ≡ some t
    pub as_double-number : (n : ℕ) → as_double (number n) ≡ some n
    pub as_bool-boolean : (b : Bool) → as_bool (boolean b) ≡ some b
    pub get-put :
        (k k' : List ℕ) (v o : Value)
        → IsObject o
        → get (put k v o) k' ≡ (if text_eq k' k then some v else get o k')
    pub reads_back :
        (o : Value) → IsObject o → (w : Value) × (parse (print o) ≡ some w) × ReadsBack o w
    -- An object that is a member is read back as such.
    pub member_reads_back :
        (o m w : Value) (k : List ℕ)
        → IsObject o
        → IsObject m
        → get o k ≡ some m
        → parse (print o) ≡ some w
        → (m' : Value) × (get w k ≡ some m') × ReadsBack m m'
    -- A newline behind the object is white space.
    pub newline : (o : Value) → IsObject o → parse (print o ++ 10 ∷ []) ≡ parse (print o)

  -- `value[key].asString()` and the like.
  unfoldable pub get_string : Value → List ℕ → Option (List ℕ)
  get_string v k = get v k >>= as_string

  unfoldable pub get_double : Value → List ℕ → Option ℕ
  get_double v k = get v k >>= as_double

  unfoldable pub get_bool : Value → List ℕ → Option Bool
  get_bool v k = get v k >>= as_bool
