-- ===== src/Recovery/Fields.antt =====
-- The fields of the boot loader's message, and where they lie on the misc partition.
use code_snippet.Common.{
  ℕ, zero, suc, ◌+◌, ◌-◌, ◌<◌, ◌≡◌, refl, sym, ap, ◌∙◌, List, ◌++◌, arith, length, take, drop,
  length-append, length-replicate, take_all, take-append_self, drop-append_self, drop-drop,
  append_assoc,
}
use code_snippet.Socket.Nul.{NulFree, c_str_ends}
use code_snippet.Socket.Framing.{c_str}
use code_snippet.Recovery.{zeros, strlcpy}

pub c_str-zeros :
    (xs rest : List ℕ) (n : ℕ) → 0 < n → NulFree xs → c_str ((xs ++ zeros n) ++ rest) ≡ xs
c_str-zeros xs rest zero pos h = absurd (omega arith)
c_str-zeros xs rest (suc n) pos h =
    ap c_str (append_assoc xs (zeros (suc n)) rest) ∙ c_str_ends xs (zeros n ++ rest) h

pub c_str-strlcpy :
    (size : ℕ) (xs rest : List ℕ)
    → NulFree xs
    → length xs < size
    → c_str (strlcpy size xs ++ rest) ≡ xs
unfolding strlcpy
c_str-strlcpy size xs rest h short =
    rw (take_all (size - 1) xs (omega arith))
      (c_str-zeros xs rest (size - length xs) (omega arith) h)

pub length-strlcpy : (size : ℕ) (xs : List ℕ) → length xs < size → length (strlcpy size xs) ≡ size
unfolding strlcpy
length-strlcpy size xs short = rw (take_all (size - 1) xs (omega arith)) (
    omega (
      arith,
      length-append xs (zeros (size - length xs)),
      length-replicate {A = ℕ} (size - length xs) 0,
    ))

-- What the misc partition holds from its second page on: the command for the boot loader, and after
-- 64 bytes the text for the recovery.
pub record Holds (w : ℕ) (old new command text : List ℕ) : Type 0 where
  pub boot_command : c_str (drop w new) ≡ command
  pub recovery_line : c_str (drop (w + 64) new) ≡ text
  pub first_page : take w new ≡ take w old
  pub after_message : drop (w + 1088) new ≡ drop (w + 1088) old

-- Three fields between a first page and the rest.
module _ (w : ℕ) (page cs ss rs rest : List ℕ) (first : w ≡ length page) where
  abbrev pub image : List ℕ
  image = page ++ ((cs ++ (ss ++ rs)) ++ rest)

  at_command : drop w image ≡ cs ++ ((ss ++ rs) ++ rest)
  at_command =
      drop-append_self page ((cs ++ (ss ++ rs)) ++ rest) w first ∙ append_assoc cs (ss ++ rs) rest

  at_recovery : (n : ℕ) → length cs + length ss ≡ n → drop (w + n) image ≡ rs ++ rest
  at_recovery n size =
      sym (drop-drop w n (w + n) image refl)
      ∙ ap (drop n) (
          at_command
          ∙ ap (◌++◌ cs) (append_assoc ss rs rest)
          ∙ sym (append_assoc cs ss (rs ++ rest)))
      ∙ drop-append_self (cs ++ ss) (rs ++ rest) n (omega (arith, length-append cs ss))

  at_rest : (n : ℕ) → length (cs ++ (ss ++ rs)) ≡ n → drop (w + n) image ≡ rest
  at_rest n size =
      sym (drop-drop w n (w + n) image refl)
      ∙ ap (drop n) (drop-append_self page ((cs ++ (ss ++ rs)) ++ rest) w first)
      ∙ drop-append_self (cs ++ (ss ++ rs)) rest n (sym size)

  pub image-Holds :
      (old command text : List ℕ)
      → length cs ≡ 32
      → length ss ≡ 32
      → length rs ≡ 1024
      → ((more : List ℕ) → c_str (cs ++ more) ≡ command)
      → ((more : List ℕ) → c_str (rs ++ more) ≡ text)
      → page ≡ take w old
      → rest ≡ drop (w + 1088) old
      → Holds w old image command text
  image-Holds old command text length_cs length_ss length_rs command_text recovery_text page_kept
        rest_kept =
      record {
        boot_command = ap c_str at_command ∙ command_text ((ss ++ rs) ++ rest);
        recovery_line = ap c_str (at_recovery 64 (omega arith)) ∙ recovery_text rest;
        first_page = take-append_self page ((cs ++ (ss ++ rs)) ++ rest) w first ∙ page_kept;
        after_message =
            at_rest 1088 (omega (arith, length-append cs (ss ++ rs), length-append ss rs))
            ∙ rest_kept;
      }
