-- ===== src/Md5/Digest.antt =====
-- `final` and `digest` (Md5.cpp) against RFC 1321: what is appended to a message,
-- which value comes out, and what is left of the context.
use code_snippet.Common.{
  ℕ, ◌+◌, ◌-◌, ◌*◌, ◌%◌, ◌^◌, ◌≤◌, ◌<◌, ◌≡◌, refl, sym, ap, ◌∙◌, List, [], ◌∷◌, ◌++◌, arith, true,
  false, length, take, replicate, append_assoc, length-append, length-take, length-replicate,
}
use code_snippet.Md5.Codec.{encode}
use code_snippet.Md5.Rounds.{Regs, transform}
use code_snippet.Md5.Context.{
  Md5, initial, padding, words, pad_len, buffered, update, final, digest, reset,
}
use code_snippet.Md5.Absorb.{
  Fits, IsContext, view, bit_count, absorb, absorb-append, absorb_short, absorb_block,
  update-absorb, update_exact, buffered_lem, buffered-update,
}
use code_snippet.Md5.Padding.{
  le_bytes, zeros, appendix, md5, replicate-add, encode_bits, pad_lem, le_bytes_wrap,
}

-- The context stands for this message.
pub record Stands (m : Md5) (message : List ℕ) : Type 0 where
  pub context : IsContext m
  pub seen : view m ≡ absorb (initial, []) message
  pub counted : bit_count m ≡ 8 * length message % 2 ^ 64

pub record Holds (m : Md5) (message : List ℕ) : Type 0 where
  pub stands : Stands m message
  pub unfinished : m.finished ≡ false

reset-Stands : (m : Md5) → length m.buffer ≡ 64 → Stands (reset m) []
unfolding reset
reset-Stands m e = record {
  context = record { buffer_size = e; low_word = omega arith; high_word = omega arith };
  seen = rw (buffered_lem (reset m)) refl;
  counted = refl;
}

-- `reset` starts over with the empty message, whatever the context held.
pub reset-Holds : (m : Md5) → length m.buffer ≡ 64 → Holds (reset m) []
unfolding reset
reset-Holds m e = record { stands = reset-Stands m e; unfinished = refl }

update-finished : (m : Md5) (input : List ℕ) → (update m input).finished ≡ false
unfolding update
update-finished m input = ground arith

update-Stands :
    (m : Md5) (message input : List ℕ)
    → Stands m message
    → Fits input
    → Stands (update m input) (message ++ input)
update-Stands m message input held fits = record {
  context = after.1;
  seen =
      after.0
      ∙ ap (λ (v : Regs × List ℕ). absorb v input) held.seen
      ∙ sym (absorb-append (initial, []) message input);
  counted = omega (arith, after, held.counted, length-append message input);
}
  where
    after :
        (view (update m input) ≡ absorb (view m) input)
        × IsContext (update m input)
        × (bit_count (update m input) ≡ (bit_count m + 8 * length input) % 2 ^ 64)
    after = update-absorb m input held.context fits

-- `update` appends the input to the message.
pub update-Holds :
    (m : Md5) (message input : List ℕ)
    → Holds m message
    → Fits input
    → Holds (update m input) (message ++ input)
update-Holds m message input held fits = record {
  stands = update-Stands m message input held.stands fits;
  unfinished = update-finished m input;
}

-- The index is the message's length mod 64, and the saved count its length in bits.
module _ (m : Md5) (message : List ℕ) (held : Stands m message) where
  pub index_lem : buffered m ≡ length message % 64
  index_lem = omega (arith, buffered_lem m, held.counted, held.context)

  unfoldable pub pad : List ℕ
  pad = take (pad_len (buffered m)) padding

  unfoldable pub bits : List ℕ
  bits = encode (m.count0 ∷ m.count1 ∷ [])

  unfoldable pub padded : Md5
  padded = update m pad

  pad_bytes : pad ≡ 0x80 ∷ replicate (zeros (length message)) 0
  unfolding pad
  pad_bytes = rw index_lem (pad_lem (length message))

  bits_lem : bits ≡ le_bytes 8 (8 * length message)
  unfolding bits
  bits_lem =
      encode_bits m.count0 m.count1 (8 * length message % 2 ^ 64) held.context.low_word held.counted
      ∙ le_bytes_wrap (8 * length message)

  length-pad : length pad ≡ 1 + zeros (length message)
  length-pad =
      omega (arith, ap length pad_bytes, length-replicate {A = ℕ} (zeros (length message)) 0)

  padded-Stands : Stands padded (message ++ pad)
  unfolding padded
  padded-Stands = update-Stands m message pad held (omega (arith, length-pad))

  pub full-Stands : Stands (update padded bits) ((message ++ pad) ++ bits)
  full-Stands =
      update-Stands padded (message ++ pad) bits padded-Stands (omega (arith, ap length bits_lem))

  appended : (message ++ pad) ++ bits ≡ message ++ appendix (length message)
  appended = append_assoc message pad bits ∙ (λ k. message ++ (pad_bytes k ++ bits_lem k))

  padded_index : buffered padded ≡ 56
  unfolding padded
  padded_index =
      omega (
        arith,
        buffered-update m pad held.context (omega (arith, length-pad)),
        index_lem,
        length-pad,
      )

  pub full_buffer : (update padded bits).buffer ≡ take 56 padded.buffer ++ bits
  full_buffer =
      update_exact padded bits padded-Stands.context
        (omega (arith, padded_index, ap length bits_lem))
      ∙ ap (λ (n : ℕ). take n padded.buffer ++ bits) padded_index

  pub final_parts :
      ((final m).digest_bytes ≡ encode (words (update padded bits).state))
      × ((final m).buffer ≡ (update padded bits).buffer)
      × ((final m).state ≡ m.state)
      × ((final m).count0 ≡ m.count0)
      × ((final m).count1 ≡ m.count1)
      × ((final m).finished ≡ false)
  unfolding final padded pad bits
  final_parts = (refl, refl, refl, refl, refl, update-finished padded bits)

  -- What is pending after the padding: `message` is cut down to its last partial block.
  pub padded_pending : take 56 padded.buffer ≡ (absorb (view m) pad).1
  unfolding padded
  padded_pending =
      ap (λ (n : ℕ). take n padded.buffer) (sym padded_index)
      ∙ ap (λ (v : Regs × List ℕ). v.1)
          (update-absorb m pad held.context (omega (arith, length-pad))).0

  pub length-pending : length (take (buffered m) m.buffer) ≡ length message % 64
  length-pending = omega (arith, length-take (buffered m) m.buffer, held.context, index_lem)

  -- With fewer than 56 bytes pending the padding ends in the same block.
  pub pending_kept :
      length message % 64 < 56 → (absorb (view m) pad).1 ≡ take (buffered m) m.buffer ++ pad
  pending_kept h =
      ap (λ (v : Regs × List ℕ). v.1)
        (absorb_short m.state (take (buffered m) m.buffer) pad
          (omega (arith, length-pending, length-pad)))

  -- Otherwise it fills that block, and 56 zeros begin the next one.
  pub pending_lost : 56 ≤ length message % 64 → (absorb (view m) pad).1 ≡ replicate 56 0
  pending_lost h =
      ap (λ (xs : List ℕ). (absorb (view m) xs).1) split
      ∙ ap (λ (v : Regs × List ℕ). v.1)
          (absorb-append (view m) first_zeros (replicate 56 0)
            ∙ ap (λ (v : Regs × List ℕ). absorb v (replicate 56 0)) filled)
    where
      short : ℕ
      short = 63 - length message % 64

      first_zeros : List ℕ
      first_zeros = 0x80 ∷ replicate short 0

      count_zeros : (n z : ℕ) → z ≡ (119 - n % 64) % 64 → 56 ≤ n % 64 → z ≡ (63 - n % 64) + 56
      count_zeros n z e h = omega arith

      split : pad ≡ first_zeros ++ replicate 56 0
      split =
          pad_bytes
          ∙ ap (λ (z : ℕ). 0x80 ∷ replicate z 0)
              (count_zeros (length message) (zeros (length message)) refl h)
          ∙ ap (◌∷◌ 0x80) (replicate-add short 56 0)

      filled :
          absorb (view m) first_zeros
          ≡ (transform m.state (take (buffered m) m.buffer ++ first_zeros), [])
      filled =
          absorb_block m.state (take (buffered m) m.buffer) first_zeros
            (omega (arith, length-pending, length-replicate {A = ℕ} short 0)) (omega arith)

abbrev pub finishing : Md5 → Md5
finishing m = record m { finished = true }

pub finishing-Stands :
    (m : Md5) (message : List ℕ) → Stands m message → Stands (finishing m) message
unfolding buffered
finishing-Stands m message s = record {
  context = record {
    buffer_size = s.context.buffer_size;
    low_word = s.context.low_word;
    high_word = s.context.high_word;
  };
  seen = s.seen;
  counted = s.counted;
}

pub digest_lem : (m : Md5) → m.finished ≡ false → (digest m).0 ≡ final (finishing m)
unfolding digest
digest_lem m e = rw (e, digest)

-- The digest of a context is the digest that RFC 1321 defines for the message that it stands for.
pub digest-md5 : (m : Md5) (message : List ℕ) → Holds m message → (digest m).1 ≡ md5 message
digest-md5 m message held =
    bytes_of m
    ∙ ap (λ (x : Md5). x.digest_bytes) (digest_lem m held.unfinished)
    ∙ (final_parts (finishing m) message begun).0
    ∙ ap (λ (v : Regs × List ℕ). encode (words v.0))
        ((full-Stands (finishing m) message begun).seen
          ∙ ap (absorb (initial, [])) (appended (finishing m) message begun))
  where
    begun : Stands (finishing m) message
    begun = finishing-Stands m message held.stands

    bytes_of : (m : Md5) → (digest m).1 ≡ (digest m).0.digest_bytes
    bytes_of m = unfold digest in refl
