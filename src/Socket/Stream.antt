-- ===== src/Socket/Stream.antt =====
-- The whole read loop: it ends, and it does not matter how the stream is cut into reads.
use code_snippet.Common.{
  ℕ, zero, suc, ◌+◌, ◌<◌, ◌≡◌, ◌≢◌, refl, sym, ap, subst, ◌∙◌, List, [], ◌∷◌, ◌++◌, arith, length,
  drop,
}
use code_snippet.Socket.Framing.{
  Round, wait, illegal, undefined, message, take_message, Ending, complete, broken, overflow,
  out_of_fuel, Parsed, stop, prepend, parse_fuel, parse,
}
use code_snippet.Socket.Nul.{NulFree, drop-NulFree}
use code_snippet.Socket.Rounds.{extend, message_inv, message_shrinks, take_message-append}

-- What follows a round.
abbrev pub after_round : (List ℕ → Parsed) → List ℕ → Round → Parsed
after_round continue buffer wait = stop complete buffer
after_round continue buffer illegal = stop broken buffer
after_round continue buffer undefined = stop overflow buffer
after_round continue buffer (message body rest) = prepend body (continue rest)

fuel_step :
    (fuel : ℕ) (buffer : List ℕ)
    → parse_fuel (suc fuel) buffer ≡ after_round (parse_fuel fuel) buffer (take_message buffer)
unfolding parse_fuel
fuel_step fuel buffer = cases (take_message buffer)
  where
    cases :
        (r : Round)
        → (elim r as (λ x. Parsed) [
          | wait ↦ stop complete buffer
          | illegal ↦ stop broken buffer
          | undefined ↦ stop overflow buffer
          | message body rest ↦ prepend body (parse_fuel fuel rest)
        ])
          ≡ after_round (parse_fuel fuel) buffer r
    cases wait = refl
    cases illegal = refl
    cases undefined = refl
    cases (message body rest) = refl

after_round-cong :
    (f g : List ℕ → Parsed) (buffer : List ℕ)
    → ((body rest : List ℕ) → take_message buffer ≡ message body rest → f rest ≡ g rest)
    → (r : Round) → take_message buffer ≡ r
    → after_round f buffer r ≡ after_round g buffer r
after_round-cong f g buffer same wait e = refl
after_round-cong f g buffer same illegal e = refl
after_round-cong f g buffer same undefined e = refl
after_round-cong f g buffer same (message body rest) e = ap (prepend body) (same body rest e)

-- Beyond the buffer's length the fuel does not matter.
enough :
    (n m : ℕ) (buffer : List ℕ)
    → length buffer < n
    → length buffer < m
    → parse_fuel n buffer ≡ parse_fuel m buffer
enough zero m buffer p q = absurd (omega arith)
enough (suc n) zero buffer p q = absurd (omega arith)
enough (suc n) (suc m) buffer p q =
    fuel_step n buffer
    ∙ after_round-cong (parse_fuel n) (parse_fuel m) buffer
        (λ body rest e.
          enough n m rest (omega (arith, message_shrinks buffer body rest e))
            (omega (arith, message_shrinks buffer body rest e)))
        (take_message buffer) refl
    ∙ sym (fuel_step m buffer)

-- The loop does one round and goes on with what is left.
pub parse_step : (buffer : List ℕ) → parse buffer ≡ after_round parse buffer (take_message buffer)
unfolding parse
parse_step buffer =
    enough (length buffer + 1) (suc (length buffer)) buffer (omega arith) (omega arith)
    ∙ fuel_step (length buffer) buffer
    ∙ after_round-cong (parse_fuel (length buffer)) (λ rest. parse_fuel (length rest + 1) rest)
        buffer
        (λ body rest e.
          enough (length buffer) (length rest + 1) rest
            (omega (arith, message_shrinks buffer body rest e)) (omega arith))
        (take_message buffer) refl

-- Strong induction over the rounds: what holds of a buffer if it holds of what each message leaves
-- behind holds of every buffer.
pub rounds_induction {ℓ} :
    (P : List ℕ → Type ℓ)
    → ((buffer : List ℕ)
        → ((body rest : List ℕ) → take_message buffer ≡ message body rest → P rest)
        → P buffer)
    → (n : ℕ) (buffer : List ℕ) → length buffer < n
    → P buffer
rounds_induction P step zero buffer h = absurd (omega arith)
rounds_induction P step (suc n) buffer h = step buffer (λ body rest e.
    rounds_induction P step n rest (omega (arith, message_shrinks buffer body rest e)))

ending_step :
    (buffer : List ℕ) (r : Round)
    → ((body rest : List ℕ) → r ≡ message body rest → (parse rest).ending ≢ out_of_fuel)
    → (after_round parse buffer r).ending ≢ out_of_fuel
ending_step buffer wait ih = λ e. cc
ending_step buffer illegal ih = λ e. cc
ending_step buffer undefined ih = λ e. cc
ending_step buffer (message body rest) ih = ih body rest refl

-- The loop ends on every buffer: it leaves by `break` or by one of its returns.
pub parse_ends : (buffer : List ℕ) → (parse buffer).ending ≢ out_of_fuel
parse_ends buffer =
    rounds_induction (λ b. (parse b).ending ≢ out_of_fuel)
      (λ b ih.
        subst (λ (p : Parsed). p.ending ≢ out_of_fuel) (sym (parse_step b))
          (ending_step b (take_message b) ih))
      (length buffer + 1) buffer (omega arith)

abbrev pub prepend_all : List (List ℕ) → Parsed → Parsed
prepend_all [] p = p
prepend_all (m ∷ ms) p = prepend m (prepend_all ms p)

-- What the next read makes of the outcome of one: after a complete parse it goes on with the
-- buffer that was left, otherwise the stream has been given up.
abbrev pub continue_with : Ending → Parsed → List ℕ → Parsed
continue_with complete p more = prepend_all p.messages (parse (p.buffer ++ more))
continue_with _ p more = record p { buffer = p.buffer ++ more }

abbrev pub continue : Parsed → List ℕ → Parsed
continue p more = continue_with p.ending p more

continue-prepend :
    (m : List ℕ) (e : Ending) (p : Parsed) (more : List ℕ)
    → prepend m (continue_with e p more) ≡ continue_with e (prepend m p) more
continue-prepend m complete p more = refl
continue-prepend m broken p more = refl
continue-prepend m overflow p more = refl
continue-prepend m out_of_fuel p more = refl

append_step :
    (buffer more : List ℕ) (r : Round)
    → take_message buffer ≡ r
    → NulFree buffer
    → ((body rest : List ℕ)
        → r ≡ message body rest
        → parse (rest ++ more) ≡ continue (parse rest) more)
    → parse (buffer ++ more) ≡ continue (after_round parse buffer r) more
append_step buffer more wait e free ih = refl
append_step buffer more illegal e free ih =
    parse_step (buffer ++ more)
    ∙ ap (after_round parse (buffer ++ more))
        (take_message-append buffer more free (λ w. cc) ∙ ap (λ r. extend r more) e)
append_step buffer more undefined e free ih =
    parse_step (buffer ++ more)
    ∙ ap (after_round parse (buffer ++ more))
        (take_message-append buffer more free (λ w. cc) ∙ ap (λ r. extend r more) e)
append_step buffer more (message body rest) e free ih =
    parse_step (buffer ++ more)
    ∙ ap (after_round parse (buffer ++ more))
        (take_message-append buffer more free (λ w. cc) ∙ ap (λ r. extend r more) e)
    ∙ ap (prepend body) (ih body rest refl)
    ∙ continue-prepend body (parse rest).ending (parse rest) more

rest-NulFree :
    (buffer body rest : List ℕ)
    → take_message buffer ≡ message body rest
    → NulFree buffer
    → NulFree rest
rest-NulFree buffer body rest e free =
    let (index, n, t) = message_inv buffer body rest e in
    subst NulFree (sym t.rest_lem)
      (drop-NulFree n (drop (index + 1) buffer) (drop-NulFree (index + 1) buffer free))

-- Reading a stream in two parts, the second added to what the first left in the buffer, gives the
-- same messages, the same buffer and the same ending as reading it at once, wherever it is cut. The
-- first part has no NUL byte.
pub parse-append :
    (buffer more : List ℕ) → NulFree buffer → parse (buffer ++ more) ≡ continue (parse buffer) more
parse-append buffer more free =
    rounds_induction (λ b. NulFree b → parse (b ++ more) ≡ continue (parse b) more)
      (λ b ih f.
        append_step b more (take_message b) refl f
          (λ body rest e. ih body rest e (rest-NulFree b body rest e f))
        ∙ ap (λ (p : Parsed). continue p more) (sym (parse_step b)))
      (length buffer + 1) buffer (omega arith) free

leftover_step :
    (buffer : List ℕ) (r : Round)
    → NulFree buffer
    → ((body rest : List ℕ) → r ≡ message body rest → NulFree (parse rest).buffer)
    → NulFree (after_round parse buffer r).buffer
leftover_step buffer wait free ih = free
leftover_step buffer illegal free ih = free
leftover_step buffer undefined free ih = free
leftover_step buffer (message body rest) free ih = ih body rest refl

-- No byte is made up: what is left has no NUL if the buffer had none.
pub parse-NulFree : (buffer : List ℕ) → NulFree buffer → NulFree (parse buffer).buffer
parse-NulFree buffer free =
    rounds_induction (λ b. NulFree b → NulFree (parse b).buffer)
      (λ b ih f.
        subst (λ (p : Parsed). NulFree p.buffer) (sym (parse_step b))
          (leftover_step b (take_message b) f
            (λ body rest e. ih body rest e (rest-NulFree b body rest e f))))
      (length buffer + 1) buffer (omega arith) free
