-- ===== src/Md5/Absorb.antt =====
-- What the incremental context promises: it takes the message byte by byte and transforms each
-- full block. `update` (Md5.cpp line 159) works on whole pieces; it is compared here with that
-- description.
mod Blocks
pub use Blocks.{Fits, absorb, absorb-append, absorb_short, absorb_block}
use code_snippet.Common.Bits.{bit_and-mask}
use code_snippet.Common.{
  ℕ, ◌+◌, ◌-◌, ◌*◌, ◌/◌, ◌%◌, ◌^◌, ◌≤◌, ◌<◌, ◌≡◌, refl, sym, ap, ◌∙◌, inl, inr, List, [], ◌++◌,
  arith, u32, leb, true, false, Bool-cases, length, take, drop, append_assoc, append-nil,
  length-append, length-take, length-drop, take-append_self, take-append-drop, take_all, drop_all,
}
use code_snippet.Md5.Rounds.{Regs, transform}
use code_snippet.Md5.Context.{
  Md5, memcpy, buffered, add_count, transform_blocks, update_blocks, update,
}
use Blocks.{transform_blocks-absorb, BlocksDone}

pub record IsContext (m : Md5) : Type 0 where
  pub buffer_size : length m.buffer ≡ 64
  pub low_word : m.count0 < 2 ^ 32
  pub high_word : m.count1 < 2 ^ 32

-- The part of the context that the future depends on: the state words and the pending bytes.
abbrev pub view : Md5 → Regs × List ℕ
view m = (m.state, take (buffered m) m.buffer)

-- The 64-bit number of bits.
abbrev pub bit_count : Md5 → ℕ
bit_count m = m.count1 * 2 ^ 32 + m.count0

pub buffered_lem : (m : Md5) → buffered m ≡ m.count0 / 8 % 64
unfolding buffered
buffered_lem m = bit_and-mask 6 (m.count0 / 2 ^ 3)

pub add_count-bit_count :
    (m : Md5) (n : ℕ)
    → n < 2 ^ 32
    → m.count0 < 2 ^ 32
    → m.count1 < 2 ^ 32
    → (bit_count (add_count m n) ≡ (bit_count m + 8 * n) % 2 ^ 64)
      × ((add_count m n).count0 ≡ (m.count0 + 8 * n) % 2 ^ 32)
      × ((add_count m n).count1 < 2 ^ 32)
unfolding add_count
add_count-bit_count m n h low high = ground arith

length-memcpy :
    (buf : List ℕ) (at : ℕ) (bytes : List ℕ)
    → at + length bytes ≤ length buf
    → length (memcpy buf at bytes) ≡ length buf
unfolding memcpy
length-memcpy buf at bytes h = omega (
  arith,
  length-append (take at buf) (bytes ++ drop (at + length bytes) buf),
  length-append bytes (drop (at + length bytes) buf),
  length-take at buf,
  length-drop (at + length bytes) buf,
)

-- The bytes before the end of the copy: what was there, then what is copied.
pub take-memcpy :
    (buf : List ℕ) (at n : ℕ) (bytes : List ℕ)
    → at ≤ length buf
    → n ≡ at + length bytes
    → take n (memcpy buf at bytes) ≡ take at buf ++ bytes
unfolding memcpy
take-memcpy buf at n bytes h e =
    ap (take n) (sym (append_assoc (take at buf) bytes (drop (at + length bytes) buf)))
    ∙ take-append_self (take at buf ++ bytes) (drop (at + length bytes) buf) n
        (omega (arith, length-append (take at buf) bytes, length-take at buf))

update_counts :
    (m : Md5) (input : List ℕ)
    → ((update m input).count0 ≡ (add_count m (length input)).count0)
      × ((update m input).count1 ≡ (add_count m (length input)).count1)
unfolding update
update_counts m input = ground arith

pub buffered-lt : (m : Md5) → buffered m < 64
buffered-lt m = omega (arith, buffered_lem m)

pub buffered-update :
    (m : Md5) (input : List ℕ)
    → IsContext m
    → length input < 2 ^ 32
    → buffered (update m input) ≡ (buffered m + length input) % 64
buffered-update m input ok h = omega (
  arith,
  buffered_lem (update m input),
  buffered_lem m,
  update_counts m input,
  add_count-bit_count m (length input) h ok.low_word ok.high_word,
)

-- Input shorter than the room left in the buffer.
module _ (m : Md5) (input : List ℕ) (ok : IsContext m)
    (short : length input < 64 - buffered m) where
  update_short :
      (length (update m input).buffer ≡ 64)
      × ((update m input).state ≡ m.state)
      × ((update m input).buffer ≡ memcpy m.buffer (buffered m) input)
  unfolding update
  update_short =
      ground (arith, length-memcpy m.buffer (buffered m) input, buffered-lt m, ok.buffer_size)

  pending_short :
      take (buffered (update m input)) (update m input).buffer ≡ take (buffered m) m.buffer ++ input
  unfolding buffered
  pending_short = rw update_short.2 (
      take-memcpy m.buffer (buffered m) _ input (omega (arith, buffered-lt m, ok.buffer_size))
        (omega (arith, buffered-update m input ok (omega (arith, buffered-lt m)), buffered-lt m)))

  view_short : view (update m input) ≡ absorb (view m) input
  view_short =
      (λ k. (update_short.1 k, pending_short k))
      ∙ sym (
          absorb_short m.state (take (buffered m) m.buffer) input
            (omega (arith, length-take (buffered m) m.buffer)))

memcpy_nothing : (buf : List ℕ) → memcpy buf 0 [] ≡ buf
unfolding memcpy
memcpy_nothing buf = refl

-- Input that fills the buffer.
module _ (m : Md5) (input : List ℕ) (ok : IsContext m) (fits : Fits input)
    (long : 64 - buffered m ≤ length input) where
  room : ℕ
  room = 64 - buffered m

  filled : List ℕ
  filled = memcpy m.buffer (buffered m) (take (64 - buffered m) input)

  out : Regs × ℕ
  out = transform_blocks (length input) (transform m.state filled) room input

  update_long :
      ((update m input).state ≡ out.0)
      × ((update m input).buffer ≡ memcpy filled 0 (drop out.1 input))
  unfolding update out filled room
  update_long = ground (arith, long)

  length-filled : length filled ≡ 64
  unfolding filled
  length-filled = omega (
    arith,
    length-memcpy m.buffer (buffered m) (take (64 - buffered m) input),
    length-take (64 - buffered m) input,
    buffered-lt m,
    ok.buffer_size,
  )

  filled_lem : filled ≡ take (buffered m) m.buffer ++ take (64 - buffered m) input
  unfolding filled
  filled_lem =
      sym (take_all 64 filled (omega (arith, length-filled)))
      ∙ take-memcpy m.buffer (buffered m) 64 (take (64 - buffered m) input)
          (omega (arith, buffered-lt m, ok.buffer_size))
          (omega (arith, length-take (64 - buffered m) input, buffered-lt m))

  done : BlocksDone (transform m.state filled) room input out
  unfolding out room
  done =
      transform_blocks-absorb input fits (length input) (transform m.state filled) room long
        (omega arith)

  rest-length : length (drop out.1 input) < 64
  rest-length = omega (arith, length-drop out.1 input, done)

  length_long : length (update m input).buffer ≡ 64
  length_long =
      rw update_long.1
        (omega (arith, length-memcpy filled 0 (drop out.1 input), length-filled, rest-length))

  pending_long : take (buffered (update m input)) (update m input).buffer ≡ drop out.1 input
  unfolding room buffered out
  pending_long = rw update_long.1 (
      take-memcpy filled 0 _ (drop out.1 input) (omega arith) (
        omega (
          arith,
          buffered-update m input ok (omega arith),
          buffered-lt m,
          length-drop out.1 input,
          done,
        )))

  view_long : view (update m input) ≡ absorb (view m) input
  unfolding room
  view_long =
      (λ k. (update_long.0 k, pending_long k))
      ∙ sym done.absorbed
      ∙ ap (λ (v : Regs × List ℕ). absorb v (drop room input)) (sym first)
      ∙ sym (absorb-append (view m) (take room input) (drop room input))
      ∙ ap (absorb (view m)) (take-append-drop room input)
    where
      first : absorb (view m) (take room input) ≡ (transform m.state filled, [])
      first = rw filled_lem (
          absorb_block m.state (take (buffered m) m.buffer) (take room input)
            (omega (
              arith,
              length-take (buffered m) m.buffer,
              length-take room input,
              buffered-lt m,
              ok.buffer_size,
            ))
            (omega (arith, length-take room input, buffered-lt m)))

  -- Input that fills the buffer exactly stays in it.
  buffer_exact :
      length input ≡ 64 - buffered m → (update m input).buffer ≡ take (buffered m) m.buffer ++ input
  unfolding room
  buffer_exact e =
      update_long.1
      ∙ ap (memcpy filled 0) (drop_all out.1 input (omega (arith, done)))
      ∙ memcpy_nothing filled
      ∙ filled_lem
      ∙ ap (◌++◌ (take (buffered m) m.buffer)) (take_all (64 - buffered m) input (omega arith))

pub update_exact :
    (m : Md5) (input : List ℕ)
    → IsContext m
    → length input ≡ 64 - buffered m
    → (update m input).buffer ≡ take (buffered m) m.buffer ++ input
update_exact m input ok e = buffer_exact m input ok (omega arith) (omega arith) e

-- For input whose length leaves the uint32 loop index in range, `update` absorbs the input byte by
-- byte, keeps the context well formed and adds the input's bits to the 64-bit count.
pub update-absorb :
    (m : Md5) (input : List ℕ)
    → IsContext m
    → Fits input
    → (view (update m input) ≡ absorb (view m) input)
      × IsContext (update m input)
      × (bit_count (update m input) ≡ (bit_count m + 8 * length input) % 2 ^ 64)
update-absorb m input ok fits = elim (Bool-cases (leb (64 - buffered m) (length input))) [
  | inl long ↦ (
    view_long m input ok fits (ground arith),
    context (length_long m input ok fits (ground arith)),
    counts,
  )
  | inr short ↦ (
    view_short m input ok (ground arith),
    context (update_short m input ok (ground arith)).0,
    counts,
  )
]
  where
    in_range : length input < 2 ^ 32
    in_range = omega arith

    counts : bit_count (update m input) ≡ (bit_count m + 8 * length input) % 2 ^ 64
    counts = omega (
      arith,
      update_counts m input,
      add_count-bit_count m (length input) in_range ok.low_word ok.high_word,
    )

    context : length (update m input).buffer ≡ 64 → IsContext (update m input)
    context size = record {
      buffer_size = size;
      low_word = omega (
        arith,
        update_counts m input,
        add_count-bit_count m (length input) in_range ok.low_word ok.high_word,
      );
      high_word = omega (
        arith,
        update_counts m input,
        add_count-bit_count m (length input) in_range ok.low_word ok.high_word,
      );
    }
