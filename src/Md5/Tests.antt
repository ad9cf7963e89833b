-- ===== src/Md5/Tests.antt =====
-- Runs of the context on concrete inputs.
use code_snippet.Common.{
  ℕ, ◌+◌, ◌*◌, ◌%◌, ◌^◌, ◌≡◌, ◌≢◌, ◌↔◌, refl, ap, List, [], ◌∷◌, some, true, false, arith, length,
  take, get_or, replicate, codes,
}
use code_snippet.Md5.Codec.{bytes_to_hex_string}
use code_snippet.Md5.Rounds.{transform}
use code_snippet.Md5.Context.{Md5, initial, reset, update, digest, to_string}
use code_snippet.Md5.Absorb.{IsContext, view, bit_count, absorb, update-absorb}
use code_snippet.Md5.Digest.{Holds, reset-Holds, update-Holds, digest-md5}
use code_snippet.Md5.Padding.{md5}
use code_snippet.Md5.Rfc.{by_table, transform-by_table}
use code_snippet.Md5.Streams.{md5_of_text, md5_of_stream, update_all, update_all-digest}
use code_snippet.Md5.Checksum.{md5_checksum, md5_checksum_iff}

-- The arrays are not initialised by the constructors.
abbrev fresh : Md5
fresh = record {
  state = initial;
  count0 = 0;
  count1 = 0;
  buffer = replicate 64 0xcc;
  digest_bytes = replicate 16 0xcc;
  finished = false;
}

of_empty : (to_string (reset fresh)).1 ≡ codes "d41d8cd98f00b204e9800998ecf8427e"
unfolding to_string reset transform
of_empty = refl

of_abc :
    (to_string (update (reset fresh) (codes "abc"))).1 ≡ codes "900150983cd24fb0d6963f7d28e17f72"
unfolding to_string reset transform
of_abc = refl

of_digits :
    (to_string (
      update (reset fresh) (
        codes
          "12345678901234567890123456789012345678901234567890123456789012345678901234567890"))).1
    ≡ codes "57edf4a22be3c955ac49da2e2107b67a"
unfolding to_string reset transform
of_digits = refl

-- 60 bytes, so that 60 are pending.
abbrev sixty : List ℕ
sixty = replicate 60 97

fresh-Holds : Holds (reset fresh) []
fresh-Holds = reset-Holds fresh refl

abc-Holds : Holds (update (reset fresh) (codes "abc")) (codes "abc")
abc-Holds = update-Holds (reset fresh) [] (codes "abc") fresh-Holds (omega arith)

sixty-Holds : Holds (update (reset fresh) sixty) sixty
sixty-Holds = update-Holds (reset fresh) [] sixty fresh-Holds (omega arith)

update-absorb_example :
    (view (update (reset fresh) sixty) ≡ absorb (view (reset fresh)) sixty)
    × IsContext (update (reset fresh) sixty)
    × (bit_count (update (reset fresh) sixty)
        ≡ (bit_count (reset fresh) + 8 * length sixty) % 2 ^ 64)
update-absorb_example = update-absorb (reset fresh) sixty fresh-Holds.stands.context (omega arith)

digest-md5_example : (digest (update (reset fresh) (codes "abc"))).1 ≡ md5 (codes "abc")
digest-md5_example = digest-md5 (update (reset fresh) (codes "abc")) (codes "abc") abc-Holds

first_pending : get_or (take 56 (update (reset fresh) sixty).buffer) 0 0 ≡ 97
unfolding reset transform update
first_pending = refl

not_zeros : take 56 (update (reset fresh) sixty).buffer ≢ replicate 56 0
not_zeros h = absurd (omega (arith, first_pending, ap (λ (xs : List ℕ). get_or xs 0 0) h))

transform-by_table_example : transform initial sixty ≡ by_table initial sixty
transform-by_table_example = transform-by_table initial sixty

md5_checksum_example :
    (md5_checksum fresh (some (codes "abc")) (codes "900150983cd24fb0d6963f7d28e17f72") ≡ true)
    ↔ (codes "900150983cd24fb0d6963f7d28e17f72" ≡ bytes_to_hex_string (md5 (codes "abc")))
md5_checksum_example =
    md5_checksum_iff fresh (some (codes "abc")) (codes "900150983cd24fb0d6963f7d28e17f72") refl

abbrev two_pieces : List (List ℕ)
two_pieces = codes "over-the-" ∷ codes "air" ∷ []

update_all-digest_example :
    ((digest (update_all (reset fresh) two_pieces)).1 ≡ md5 (codes "over-the-air"))
    × ((digest (md5_of_text fresh (codes "over-the-air"))).1 ≡ md5 (codes "over-the-air"))
    × ((digest (md5_of_stream fresh (some (codes "over-the-air")))).1 ≡ md5 (codes "over-the-air"))
update_all-digest_example =
    update_all-digest fresh two_pieces refl (omega arith, (omega arith, tt)) (omega arith)
