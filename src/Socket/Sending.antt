-- ===== src/Socket/Sending.antt =====
-- ClientSocket::WriteData: which bytes go out, and when the call returns.
use code_snippet.Common.{
  ℕ, ◌+◌, ◌-◌, ◌≤◌, ◌<◌, ◌≡◌, refl, sym, ap, subst, ◌∙◌, ◌⊎◌, inl, inr, List, [], ◌∷◌, ◌++◌, Option,
  none, some, arith, ltb, lt→ltb, ltb→lt, ltb_false→le, Bool-cases, length, take, drop,
  length-append, length-take, length-drop, take-append-drop, drop-drop, take_all, take-add,
}
use code_snippet.Socket.Client.{
  ClientSocket, WriteOutcome, disconnected, failed, blocked, written, send_loop, write_data,
}

-- `send` never takes more than it is handed.
abbrev pub IsSane : List (Option ℕ) → ℕ → Type 0
IsSane [] left = Unit {0}
IsSane (none ∷ results) left = Unit {0}
IsSane (some n ∷ results) left = (n ≤ left) × IsSane results (left - n)

-- What an outcome says about the bytes that went out after the first `sent`.
abbrev pub Sent : List ℕ → ℕ → WriteOutcome × List ℕ → Type 0
Sent data_ sent (written n, wire) = (n ≡ length data_) × (wire ≡ drop sent data_)
Sent data_ sent (blocked n, wire) = (sent ≤ n) × (wire ≡ take (n - sent) (drop sent data_))
Sent data_ sent (failed, wire) = wire ≡ take (length wire) (drop sent data_)
Sent data_ sent (disconnected, wire) = ⊥

Sent-step :
    (data_ : List ℕ) (sent n : ℕ)
    → n ≤ length data_ - sent
    → (outcome : WriteOutcome) (wire : List ℕ) → Sent data_ (sent + n) (outcome, wire)
    → Sent data_ sent (outcome, take n (drop sent data_) ++ wire)
Sent-step data_ sent n h (written total) wire s = (
  s.0,
  ap (◌++◌ (take n (drop sent data_))) (s.1 ∙ sym (drop-drop sent n (sent + n) data_ refl))
      ∙ take-append-drop n (drop sent data_),
)
Sent-step data_ sent n h (blocked total) wire s = (
  omega (arith, s.0),
  ap (◌++◌ (take n (drop sent data_)))
        (s.1 ∙ ap (take (total - (sent + n))) (sym (drop-drop sent n (sent + n) data_ refl)))
      ∙ take-add n (total - (sent + n)) (total - sent) (drop sent data_) (omega (arith, s.0)),
)
Sent-step data_ sent n h failed wire s =
    ap (◌++◌ (take n (drop sent data_)))
      (s ∙ ap (take (length wire)) (sym (drop-drop sent n (sent + n) data_ refl)))
    ∙ take-add n (length wire) (length (take n (drop sent data_) ++ wire)) (drop sent data_) (
        omega (
          arith,
          length-append (take n (drop sent data_)) wire,
          length-take n (drop sent data_),
          length-drop sent data_,
        ))
Sent-step data_ sent n h disconnected wire s = s

send_loop-Sent :
    (results : List (Option ℕ)) (data_ : List ℕ) (sent : ℕ)
    → sent ≤ length data_
    → IsSane results (length data_ - sent)
    → Sent data_ sent (send_loop results data_ sent)
unfolding send_loop
send_loop-Sent [] data_ sent h sane =
    (omega arith, ap (λ (k : ℕ). take k (drop sent data_)) none_left)
  where
    none_left : 0 ≡ sent - sent
    none_left = omega arith
send_loop-Sent (none ∷ results) data_ sent h sane = refl
send_loop-Sent (some n ∷ results) data_ sent h sane =
    elim (Bool-cases (ltb (sent + n) (length data_))) [
      | inl more ↦ rw more (
          Sent-step data_ sent n sane.0 _ _ (
            send_loop-Sent results data_ (sent + n) (omega (arith, sane.0))
              (subst (IsSane results) left sane.1)))
      | inr last ↦ rw last (whole (ltb_false→le _ _ last))
    ]
  where
    left : length data_ - sent - n ≡ length data_ - (sent + n)
    left = omega arith

    whole :
        length data_ ≤ sent + n
        → (sent + n ≡ length data_) × (take n (drop sent data_) ≡ drop sent data_)
    whole short = (
      omega (arith, sane.0),
      take_all n (drop sent data_) (omega (arith, length-drop sent data_)),
    )

sub_zero : (n : ℕ) → n ≡ n - 0
sub_zero n = omega arith

-- WriteData on a connected socket. If it returns a size, that is the size of the data, and exactly
-- the data went out; while a call of `send` has not returned, and after a failed one, a prefix of
-- the data has gone out.
pub write_data-Sent :
    (c : ClientSocket) (results : List (Option ℕ)) (data_ : List ℕ)
    → 0 < c.fd
    → IsSane results (length data_)
    → Sent data_ 0 (write_data c results data_)
unfolding write_data
write_data-Sent c results data_ fd sane = rw (lt→ltb 0 c.fd fd) (
    send_loop-Sent results data_ 0 (omega arith)
      (subst (IsSane results) (sub_zero (length data_)) sane))

-- Every call of `send` takes something.
abbrev pub IsBusy : List (Option ℕ) → ℕ → Type 0
IsBusy [] left = Unit {0}
IsBusy (none ∷ results) left = ⊥
IsBusy (some n ∷ results) left = (n ≤ left) × ((left ≡ 0) ⊎ (0 < n)) × IsBusy results (left - n)

send_loop-written :
    (results : List (Option ℕ)) (data_ : List ℕ) (sent : ℕ)
    → sent ≤ length data_
    → length data_ - sent < length results
    → IsBusy results (length data_ - sent)
    → (send_loop results data_ sent).0 ≡ written (length data_)
unfolding send_loop
send_loop-written [] data_ sent h enough busy = absurd (omega arith)
send_loop-written (none ∷ results) data_ sent h enough busy = absurd busy
send_loop-written (some n ∷ results) data_ sent h enough busy =
    elim (Bool-cases (ltb (sent + n) (length data_))) [
      | inl more ↦ rw more (
          send_loop-written results data_ (sent + n) (omega (arith, busy.0))
            (fewer (ltb→lt _ _ more) busy.1) (subst (IsBusy results) left busy.2))
      | inr last ↦ rw last (ap written (total (ltb_false→le _ _ last)))
    ]
  where
    left : length data_ - sent - n ≡ length data_ - (sent + n)
    left = omega arith

    fewer :
        sent + n < length data_
        → (length data_ - sent ≡ 0) ⊎ (0 < n)
        → length data_ - (sent + n) < length results
    fewer more some_taken = omega arith

    total : length data_ ≤ sent + n → sent + n ≡ length data_
    total short = omega (arith, busy.0)

-- If no call fails and each takes at least one byte while any are left, WriteData returns after at
-- most one call for each byte and one more, with all of the data written.
pub write_data-written :
    (c : ClientSocket) (results : List (Option ℕ)) (data_ : List ℕ)
    → 0 < c.fd
    → length data_ < length results
    → IsBusy results (length data_)
    → (write_data c results data_).0 ≡ written (length data_)
unfolding write_data
write_data-written c results data_ fd enough busy = rw (lt→ltb 0 c.fd fd) (
    send_loop-written results data_ 0 (omega arith) (omega arith)
      (subst (IsBusy results) (sub_zero (length data_)) busy))
