-- ===== src/Download/Sizes.antt =====
-- What checkDownloadTask finds out about the size of the file.
use code_snippet.Common.{
  ℕ, zero, suc, ◌+◌, ◌*◌, ◌≤◌, ◌<◌, ◌≡◌, ◌≢◌, ◌↔◌, refl, sym, ap, ◌∙◌, inl, inr, List, Bool, true,
  false, Option, none, some, arith, ltb, ==_iff, Bool-cases, ltb→lt, lt→ltb, ltb_false→le,
}
use code_snippet.Download.{
  DownloadTask, Call, sleep, SizeReply, require_file_size, check_loop, check_download_task,
  is_positive, size_is,
}
use code_snippet.Download.Retries.{count}

-- The first request from number `counter` on, and before number 10, that gets a positive size gets
-- this one.
pub record FirstSize (replies : ℕ → SizeReply) (counter file_size : ℕ) : Type 0 where
  pub request : ℕ
  pub late : counter ≤ request
  pub early : request < 10
  pub the_size : require_file_size (replies request) ≡ some file_size
  pub not_empty : 0 < file_size
  pub before :
      (j : ℕ) → counter ≤ j → j < request → is_positive (require_file_size (replies j)) ≡ false

not_both : {b : Bool} → b ≡ true → b ≡ false → ⊥
not_both h h' = cc (h, h')

some_is_not_none : {b : Bool} → some b ≢ none
some_is_not_none h = cc h

some_injective : {a b : Bool} → some a ≡ some b → a ≡ b
some_injective h = cc h

trans : {A B C : Type 0} → A ↔ B → B ↔ C → A ↔ C
trans e f = (λ a. f.0 (e.0 a), λ c. e.1 (f.1 c))

positive_size :
    (o : Option ℕ) (n : ℕ) → is_positive o ≡ true → size_is o n ≡ true → (o ≡ some n) × 0 < n
positive_size none n h fits = absurd (not_both h refl)
positive_size (some m) n h fits = (ap some (sym same), omega (arith, ltb→lt 0 m h, same))
  where
    same : n ≡ m
    same = (==_iff n m).0 fits

size_fits : (o : Option ℕ) (n : ℕ) → o ≡ some n → size_is o n ≡ true
size_fits o n h = rw h ((==_iff n n).1 refl)

is_positive-some : (o : Option ℕ) (n : ℕ) → o ≡ some n → 0 < n → is_positive o ≡ true
is_positive-some o n h positive = rw h (lt→ltb 0 n positive)

-- The request in hand is the first one with a size.
here :
    (replies : ℕ → SizeReply) (file_size counter : ℕ)
    → counter < 10
    → is_positive (require_file_size (replies counter)) ≡ true
    → (some (size_is (require_file_size (replies counter)) file_size) ≡ some true)
      ↔ FirstSize replies counter file_size
here replies file_size counter low positive = (
  λ h.
      let (known, big) = positive_size _ file_size positive (some_injective h) in
      record {
        request = counter;
        late = omega arith;
        early = low;
        the_size = known;
        not_empty = big;
        before = λ j from to. absurd (omega arith);
      },
  λ first. ap some (
      size_fits _ file_size (elim (Bool-cases (ltb counter first.request)) [
        | inl below ↦
            absurd (not_both positive (first.before counter (omega arith) (ltb→lt _ _ below)))
        | inr above ↦
            ap (λ (k : ℕ). require_file_size (replies k))
              (omega (arith, first.late, ltb_false→le _ _ above))
            ∙ first.the_size
      ])),
)

-- The request in hand got none, so that it is one of the following.
later :
    (replies : ℕ → SizeReply) (file_size counter : ℕ)
    → is_positive (require_file_size (replies counter)) ≡ false
    → FirstSize replies (counter + 1) file_size ↔ FirstSize replies counter file_size
later replies file_size counter nothing = (
  λ first. record {
    request = first.request;
    late = omega (arith, first.late);
    early = first.early;
    the_size = first.the_size;
    not_empty = first.not_empty;
    before = λ j from to. elim (Bool-cases (ltb counter j)) [
      | inl past ↦ first.before j (omega (arith, ltb→lt _ _ past)) to
      | inr now ↦
          ap (λ (k : ℕ). is_positive (require_file_size (replies k)))
            (omega (arith, ltb_false→le _ _ now))
          ∙ nothing
    ];
  },
  λ first. record {
    request = first.request;
    late = elim (Bool-cases (ltb counter first.request)) [
      | inl past ↦ omega (arith, ltb→lt _ _ past)
      | inr now ↦ absurd (
          not_both (is_positive-some _ file_size first.the_size first.not_empty) (
            ap (λ (k : ℕ). is_positive (require_file_size (replies k)))
              (omega (arith, first.late, ltb_false→le _ _ now))
            ∙ nothing))
    ];
    early = first.early;
    the_size = first.the_size;
    not_empty = first.not_empty;
    before = λ j from to. first.before j (omega arith) to;
  },
)

-- No request is left.
none_left :
    (replies : ℕ → SizeReply) (file_size counter : ℕ)
    → 10 ≤ counter
    → ¬ FirstSize replies counter file_size
none_left replies file_size counter high first = omega (arith, first.late, first.early)

-- The result of the loop, and that it makes no call but the sleeps.
pub record Checked (replies : ℕ → SizeReply) (file_size counter : ℕ) (c : Option Bool × List Call)
    : Type 0 where
  pub finished : c.0 ≢ none
  pub verdict : (c.0 ≡ some true) ↔ FirstSize replies counter file_size
  pub silent : (kind : Call → ℕ) → ((n : ℕ) → kind (sleep n) ≡ 0) → count kind c.1 ≡ 0

check_loop-Checked :
    (fuel : ℕ) (replies : ℕ → SizeReply) (file_size counter : ℕ)
    → counter < 10
    → 10 ≤ fuel + counter
    → Checked replies file_size counter (check_loop fuel replies file_size counter)
unfolding check_loop
check_loop-Checked zero replies file_size counter low enough = absurd (omega arith)
check_loop-Checked (suc fuel) replies file_size counter low enough =
    elim (Bool-cases (is_positive (require_file_size (replies counter)))) [
      | inl known ↦ rw known (record {
        finished = some_is_not_none;
        verdict = here replies file_size counter low known;
        silent = λ kind quiet. refl;
      })
      | inr unknown ↦ elim (Bool-cases (ltb (counter + 1) 10)) [
        | inl more ↦
            let ih =
              check_loop-Checked fuel replies file_size (counter + 1) (ltb→lt _ _ more)
                (omega arith) in
            rw unknown (
              rw more (record {
                finished = ih.finished;
                verdict = trans ih.verdict (later replies file_size counter unknown);
                silent =
                    λ kind quiet. omega (arith, quiet ((counter + 1) * 5), ih.silent kind quiet);
              }))
        | inr last ↦ rw unknown (
            rw last (record {
              finished = some_is_not_none;
              verdict = (
                λ h. absurd (not_both (some_injective h) refl),
                λ first. absurd (
                    none_left replies file_size (counter + 1) (ltb_false→le _ _ last)
                      ((later replies file_size counter unknown).1 first)),
              );
              silent = λ kind quiet. omega (arith, quiet ((counter + 1) * 5));
            }))
      ]
    ]

pub check_download_task-Checked :
    (replies : ℕ → SizeReply) (task : DownloadTask)
    → Checked replies task.file_size 0 (check_download_task replies task)
check_download_task-Checked replies task =
    unfold check_download_task in
    check_loop-Checked 10 replies task.file_size 0 (omega arith) (omega arith)

-- checkDownloadTask always returns, and it accepts the task exactly when one of the first ten
-- requests gets the task's size, which is positive, and all the requests before that get no positive
-- size.
pub check_download_task_iff :
    (replies : ℕ → SizeReply) (task : DownloadTask)
    → ((check_download_task replies task).0 ≢ none)
      × (((check_download_task replies task).0 ≡ some true) ↔ FirstSize replies 0 task.file_size)
check_download_task_iff replies task =
    let c = check_download_task-Checked replies task in (c.finished, c.verdict)
