-- ===== src/Json/Sample.antt =====
-- A small JSON library that meets the laws: a value is printed as a kind, a size and its content.
use code_snippet.Common.{
  ℕ, zero, suc, ◌≡◌, refl, sym, ap, subst, ◌∙◌, List, [], ◌∷◌, ◌++◌, Bool, true, false, Option,
  none, some, length, take, drop, take-append_self, drop-append_self, append_assoc, append-nil,
  text_eq, if◌then◌else◌,
}
use code_snippet.Json.{Json, ReadsBack, IsObject, Laws}

-- Members hold their values printed. A text is a leaf that starts with 3, a number one with 1, a
-- Boolean one with 2, and null an empty one.
pub data Value : Type 0 where
  leaf : List ℕ → Value
  object : List (List ℕ × List ℕ) → Value

abbrev sized : List ℕ → List ℕ
sized xs = suc (length xs) ∷ xs

abbrev members : List (List ℕ × List ℕ) → List ℕ
members [] = []
members ((k, v) ∷ ms) = sized k ++ (sized v ++ members ms)

abbrev print : Value → List ℕ
print (leaf xs) = 1 ∷ sized xs
print (object ms) = 2 ∷ (suc (length ms) ∷ members ms)

-- The sized list in front, and what follows it.
abbrev read : List ℕ → List ℕ × List ℕ
read [] = ([], [])
read (zero ∷ xs) = ([], xs)
read (suc n ∷ xs) = (take n xs, drop n xs)

abbrev read_members : ℕ → List ℕ → List (List ℕ × List ℕ)
read_members zero xs = []
read_members (suc n) xs =
    let (k, after_key) = read xs in let (v, rest) = read after_key in (k, v) ∷ read_members n rest

abbrev read_value : List ℕ → Value
read_value (suc zero ∷ xs) = leaf (read xs).0
read_value (suc (suc _) ∷ suc n ∷ xs) = object (read_members n xs)
read_value _ = leaf []

read-sized : (xs rest : List ℕ) → read (sized xs ++ rest) ≡ (xs, rest)
read-sized xs rest =
    λ i. (take-append_self xs rest (length xs) refl i, drop-append_self xs rest (length xs) refl i)

read_member :
    (n : ℕ) (xs k after_key v rest : List ℕ)
    → read xs ≡ (k, after_key)
    → read after_key ≡ (v, rest)
    → read_members (suc n) xs ≡ (k, v) ∷ read_members n rest
read_member n xs k after_key v rest p q =
    ap (λ (t : List ℕ × List ℕ). (t.0, (read t.1).0) ∷ read_members n (read t.1).1) p
    ∙ ap (λ (t : List ℕ × List ℕ). (k, t.0) ∷ read_members n t.1) q

read_members-members :
    (ms : List (List ℕ × List ℕ)) (rest : List ℕ)
    → read_members (length ms) (members ms ++ rest) ≡ ms
read_members-members [] rest = refl
read_members-members ((k, v) ∷ ms) rest =
    ap (read_members (suc (length ms))) (append_assoc (sized k) (sized v ++ members ms) rest)
    ∙ read_member (length ms) (sized k ++ ((sized v ++ members ms) ++ rest)) k _ v
        (members ms ++ rest) (read-sized k ((sized v ++ members ms) ++ rest))
        (ap read (append_assoc (sized v) (members ms) rest) ∙ read-sized v (members ms ++ rest))
    ∙ ap (◌∷◌ (k, v)) (read_members-members ms rest)

read_value-print : (v : Value) (rest : List ℕ) → read_value (print v ++ rest) ≡ v
read_value-print (leaf xs) rest = ap (λ (r : List ℕ × List ℕ). leaf r.0) (read-sized xs rest)
read_value-print (object ms) rest = ap object (read_members-members ms rest)

read_value-print_alone : (v : Value) → read_value (print v) ≡ v
read_value-print_alone v = ap read_value (sym (append-nil (print v))) ∙ read_value-print v []

abbrev member : List ℕ → List (List ℕ × List ℕ) → Value
member k [] = leaf []
member k ((k', v) ∷ ms) = if text_eq k k' then read_value v else member k ms

abbrev get : Value → List ℕ → Option Value
get (leaf []) k = some (leaf [])
get (leaf (x ∷ xs)) k = none
get (object ms) k = some (member k ms)

abbrev put : List ℕ → Value → Value → Value
put k v (leaf xs) = object ((k, print v) ∷ [])
put k v (object ms) = object ((k, print v) ∷ ms)

abbrev is_null : Value → Bool
is_null (leaf []) = true
is_null _ = false

abbrev as_string : Value → Option (List ℕ)
as_string (leaf []) = some []
as_string (leaf (suc (suc (suc zero)) ∷ t)) = some t
as_string _ = none

abbrev as_double : Value → Option ℕ
as_double (leaf []) = some 0
as_double (leaf (suc zero ∷ n ∷ [])) = some n
as_double _ = none

abbrev as_bool : Value → Option Bool
as_bool (leaf []) = some false
as_bool (leaf (suc (suc zero) ∷ zero ∷ [])) = some false
as_bool (leaf (suc (suc zero) ∷ suc _ ∷ [])) = some true
as_bool _ = none

abbrev boolean : Bool → Value
boolean true = leaf (2 ∷ 1 ∷ [])
boolean false = leaf (2 ∷ 0 ∷ [])

abbrev pub sample : Json
sample = record {
  Value = Value;
  parse = λ t. some (read_value t);
  print = print;
  get = get;
  put = put;
  empty = leaf [];
  is_null = is_null;
  text = λ t. leaf (3 ∷ t);
  number = λ n. leaf (1 ∷ n ∷ []);
  boolean = boolean;
  as_string = as_string;
  as_double = as_double;
  as_bool = as_bool;
}

found :
    (b : Bool) (v w : Value)
    → some (if b then read_value (print v) else w) ≡ (if b then some v else some w)
found true v w = ap some (read_value-print_alone v)
found false v w = refl

read_same : (o w : Value) → some (read_value (print o)) ≡ some w → o ≡ w
read_same o w e = sym (read_value-print_alone o) ∙ cc e

get-put :
    (k k' : List ℕ) (v o : Value)
    → IsObject sample o
    → get (put k v o) k' ≡ (if text_eq k' k then some v else get o k')
get-put k k' v o (IsObject.new) = found (text_eq k' k) v (leaf [])
get-put k k' v o (IsObject.with_member k2 v2 (leaf xs) h) = found (text_eq k' k) v _
get-put k k' v o (IsObject.with_member k2 v2 (object ms) h) = found (text_eq k' k) v _
get-put k k' v w (IsObject.read_again o w' h e) =
    subst (λ (x : Value). get (put k v x) k' ≡ (if text_eq k' k then some v else get x k'))
      (read_same o w e) (get-put k k' v o h)

keeps : (v : Value) → ReadsBack sample v v
keeps v = record {
  text_kept = λ k t ok e. e;
  number_kept = λ k n small e. rw e refl;
  boolean_kept = λ k b e. e;
}

pub sample-Laws : Laws sample
sample-Laws = record {
  as_string-text = λ t. refl;
  as_double-number = λ n. refl;
  as_bool-boolean = λ b. as_bool-boolean b;
  get-put = get-put;
  reads_back = λ o h. (o, ap some (read_value-print_alone o), keeps o);
  member_reads_back =
      λ o m w k h h' e e'. (m, ap (λ (x : Value). get x k) (sym (read_same o w e')) ∙ e, keeps m);
  newline = λ o h. ap some (read_value-print o (10 ∷ []) ∙ sym (read_value-print_alone o));
}
  where
    as_bool-boolean : (b : Bool) → as_bool (boolean b) ≡ some b
    as_bool-boolean true = refl
    as_bool-boolean false = refl
