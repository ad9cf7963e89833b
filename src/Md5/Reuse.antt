-- ===== src/Md5/Reuse.antt =====
-- The context after `digest`. `final` saves `_state` and `_count` and puts them back, so that more
-- input may follow, but it has written its padding into `_buffer` (Md5.cpp, `final`).
use code_snippet.Common.{
  ℕ, ◌+◌, ◌*◌, ◌%◌, ◌^◌, ◌≤◌, ◌<◌, ◌≡◌, ◌≢◌, refl, sym, ap, ◌∙◌, List, ◌++◌, arith, false, length,
  take, replicate, append_assoc, take-append_self, take-take,
}
use code_snippet.Md5.Rounds.{Regs}
use code_snippet.Md5.Context.{Md5, buffered, update, digest}
use code_snippet.Md5.Absorb.{Fits, view, bit_count, buffered_lem}
use code_snippet.Md5.Padding.{md5}
use code_snippet.Md5.Digest.{
  Stands, Holds, index_lem, pad, bits, padded, full_buffer, final_parts, padded_pending,
  length-pending, full-Stands, pending_kept, pending_lost, finishing, finishing-Stands, digest_lem,
  digest-md5, update-Holds,
}

module _ (m : Md5) (message : List ℕ) (held : Holds m message) where
  begun : Stands (finishing m) message
  begun = finishing-Stands m message held.stands

  after_parts :
      ((digest m).0.buffer
        ≡ take 56 (padded (finishing m) message begun).buffer ++ bits (finishing m) message begun)
      × ((digest m).0.state ≡ m.state)
      × ((digest m).0.count0 ≡ m.count0)
      × ((digest m).0.count1 ≡ m.count1)
      × ((digest m).0.finished ≡ false)
  after_parts = rw (digest_lem m held.unfinished) (
    (final_parts (finishing m) message begun).1 ∙ full_buffer (finishing m) message begun,
    (final_parts (finishing m) message begun).2,
    (final_parts (finishing m) message begun).3,
    (final_parts (finishing m) message begun).4,
    (final_parts (finishing m) message begun).5,
  )

  after_index : buffered (digest m).0 ≡ buffered m
  after_index = omega (arith, buffered_lem (digest m).0, buffered_lem m, after_parts.2)

  begun_pending : take (buffered (finishing m)) m.buffer ≡ take (buffered m) m.buffer
  unfolding buffered
  begun_pending = refl

  pending_size : length (take (buffered m) m.buffer) ≡ length message % 64
  pending_size = length-pending m message held.stands

  kept :
      length message % 64 < 56
      → take (buffered (digest m).0) (digest m).0.buffer ≡ take (buffered m) m.buffer
  kept h =
      (λ k. take (after_index k) (buffer k))
      ∙ take-append_self (take (buffered m) m.buffer)
          (pad (finishing m) message begun ++ bits (finishing m) message begun) (buffered m)
          (omega (arith, pending_size, index_lem m message held.stands))
    where
      buffer :
          (digest m).0.buffer
          ≡ take (buffered m) m.buffer
            ++ (pad (finishing m) message begun ++ bits (finishing m) message begun)
      buffer =
          after_parts.0
          ∙ ap (λ (xs : List ℕ). xs ++ bits (finishing m) message begun)
              (padded_pending (finishing m) message begun
                ∙ pending_kept (finishing m) message begun h
                ∙ ap (λ (xs : List ℕ). xs ++ pad (finishing m) message begun) begun_pending)
          ∙ append_assoc (take (buffered m) m.buffer) _ _

  after_size : length (digest m).0.buffer ≡ 64
  after_size =
      ap length (
        ap (λ (x : Md5). x.buffer) (digest_lem m held.unfinished)
        ∙ (final_parts (finishing m) message begun).1)
      ∙ (full-Stands (finishing m) message begun).context.buffer_size

-- With fewer than 56 bytes in the last block, the context still stands for the message after
-- `digest`: more input can be appended, and the digest can be asked for again.
pub digest-Holds :
    (m : Md5) (message : List ℕ)
    → Holds m message
    → length message % 64 < 56
    → Holds (digest m).0 message
digest-Holds m message held h = record {
  stands = record {
    context = record {
      buffer_size = after_size m message held;
      low_word = omega (arith, held.stands.context, after_parts m message held);
      high_word = omega (arith, held.stands.context, after_parts m message held);
    };
    seen = (λ k. ((after_parts m message held).1 k, kept m message held h k)) ∙ held.stands.seen;
    counted = omega (arith, held.stands.counted, after_parts m message held);
  };
  unfinished = (after_parts m message held).4;
}

-- With 56 bytes or more in the last block, `digest` overwrites them: the words and the count are
-- restored, but the first 56 pending bytes have become zeros, whatever they were.
pub digest_overwrites :
    (m : Md5) (message : List ℕ)
    → Holds m message
    → 56 ≤ length message % 64
    → ((digest m).0.state ≡ m.state)
      × (bit_count (digest m).0 ≡ bit_count m)
      × (take 56 (digest m).0.buffer ≡ replicate 56 0)
digest_overwrites m message held h = (
  (after_parts m message held).1,
  (λ k. (after_parts m message held).3 k * 2 ^ 32 + (after_parts m message held).2 k),
  ap (take 56) (after_parts m message held).0
      ∙ ap (λ (xs : List ℕ). take 56 (xs ++ bits (finishing m) message (begun m message held)))
          (padded_pending (finishing m) message (begun m message held)
            ∙ pending_lost (finishing m) message (begun m message held) h)
      ∙ take-append_self (replicate 56 0) (bits (finishing m) message (begun m message held)) 56
          refl,
)

-- In the good case the digest can be asked for again, and more input digests as if nothing had
-- happened in between.
pub digest-update-digest :
    (m : Md5) (message input : List ℕ)
    → Holds m message
    → length message % 64 < 56
    → Fits input
    → ((digest (digest m).0).1 ≡ (digest m).1)
      × ((digest (update (digest m).0 input)).1 ≡ md5 (message ++ input))
digest-update-digest m message input held h fits = (
  digest-md5 (digest m).0 message again ∙ sym (digest-md5 m message held),
  digest-md5 (update (digest m).0 input) (message ++ input)
      (update-Holds (digest m).0 message input again fits),
)
  where
    again : Holds (digest m).0 message
    again = digest-Holds m message held h

-- In the other case, unless those bytes were zeros already, the context that `digest` leaves
-- behind no longer has the pending bytes of the message.
pub digest_forgets :
    (m : Md5) (message : List ℕ)
    → Holds m message
    → 56 ≤ length message % 64
    → take 56 m.buffer ≢ replicate 56 0
    → view (digest m).0 ≢ view m
digest_forgets m message held h lost same = lost (
    sym (take-take 56 (buffered m) m.buffer enough)
    ∙ ap (λ (v : Regs × List ℕ). take 56 v.1) (sym same)
    ∙ take-take 56 (buffered (digest m).0) (digest m).0.buffer still_enough
    ∙ (digest_overwrites m message held h).2)
  where
    enough : 56 ≤ buffered m
    enough = omega (arith, index_lem m message held.stands)

    still_enough : 56 ≤ buffered (digest m).0
    still_enough = omega (arith, after_index m message held, enough)
