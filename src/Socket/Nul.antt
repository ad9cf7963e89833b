-- ===== src/Socket/Nul.antt =====
-- Texts without a NUL, which `.c_str()` of ffos/ota/src/socket/ClientSocket.cpp and the C strings of the
-- other files keep whole.
use code_snippet.Common.{
  ℕ, zero, suc, ◌≡◌, ◌≢◌, refl, inl, inr, List, [], ◌∷◌, ◌++◌, Bool, true, false, arith, ◌==◌,
  ==_iff, if◌then◌else◌, Bool-cases, take, drop,
}
use code_snippet.Socket.Framing.{c_str}

-- No byte is NUL, so that `.c_str()` keeps the whole header.
abbrev pub NulFree : List ℕ → Type 0
NulFree [] = Unit {0}
NulFree (c ∷ cs) = (c ≢ 0) × NulFree cs

pub c_str-NulFree : (cs : List ℕ) → NulFree cs → c_str cs ≡ cs
unfolding c_str
c_str-NulFree [] h = refl
c_str-NulFree (c ∷ cs) h = ground (arith, c_str-NulFree cs h.1)

pub c_str_ends : (xs rest : List ℕ) → NulFree xs → c_str (xs ++ 0 ∷ rest) ≡ xs
unfolding c_str
c_str_ends [] rest h = refl
c_str_ends (x ∷ xs) rest h = let e = c_str_ends xs rest h.1 in ground arith

abbrev no_nul : List ℕ → Bool
no_nul [] = true
no_nul (x ∷ xs) = if x == 0 then false else no_nul xs

pub no_nul-NulFree : (xs : List ℕ) → no_nul xs ≡ true → NulFree xs
no_nul-NulFree [] h = tt
no_nul-NulFree (x ∷ xs) h = elim (Bool-cases (x == 0)) [
  | inl nul ↦ cc (rw nul at h)
  | inr plain ↦ (λ e. cc (plain, (==_iff x 0).1 e), no_nul-NulFree xs (rw plain at h))
]

pub NulFree-append : (xs ys : List ℕ) → NulFree xs → NulFree ys → NulFree (xs ++ ys)
NulFree-append [] ys hx hy = hy
NulFree-append (x ∷ xs) ys hx hy = (hx.0, NulFree-append xs ys hx.1 hy)

pub take-NulFree : (n : ℕ) (cs : List ℕ) → NulFree cs → NulFree (take n cs)
take-NulFree zero cs h = tt
take-NulFree (suc n) [] h = tt
take-NulFree (suc n) (c ∷ cs) h = (h.0, take-NulFree n cs h.1)

pub drop-NulFree : (n : ℕ) (cs : List ℕ) → NulFree cs → NulFree (drop n cs)
drop-NulFree zero cs h = h
drop-NulFree (suc n) [] h = tt
drop-NulFree (suc n) (c ∷ cs) h = drop-NulFree n cs h.1
