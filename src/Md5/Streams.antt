-- ===== src/Md5/Streams.antt =====
-- Md5.cpp: the constructors that take input, and the reader of an open stream. The stream is what is
-- left in it, or `none` where it is not in a good state.
use code_snippet.Common.{
  ℕ, ◌+◌, ◌≡◌, sym, subst, List, [], ◌∷◌, ◌++◌, Option, none, some, length, append_assoc,
  append-nil,
}
use code_snippet.Md5.Context.{Md5, reset, update, digest}
use code_snippet.Md5.Absorb.{Fits}
use code_snippet.Md5.Checksum.{read_pieces, update_file, update_file-Holds}
use code_snippet.Md5.Padding.{md5}
use code_snippet.Md5.Digest.{Holds, reset-Holds, update-Holds, digest-md5}

-- MD5::update(ifstream&); MD5_BUFFER_SIZE is 1024, as the pieces of updateFile.
unfoldable pub update_stream : Md5 → Option (List ℕ) → Md5
update_stream m none = m
update_stream m (some content) = read_pieces (length content + 1) m content

-- MD5::MD5(const void*, size_t) and MD5::MD5(const string&), in the given memory.
unfoldable pub md5_of_text : Md5 → List ℕ → Md5
unfolding reset update
md5_of_text memory input = update (reset memory) input

-- MD5::MD5(ifstream&)
unfoldable pub md5_of_stream : Md5 → Option (List ℕ) → Md5
unfolding reset update_stream
md5_of_stream memory in_ = update_stream (reset memory) in_

-- Calls of `update`, one after another.
abbrev pub update_all : Md5 → List (List ℕ) → Md5
update_all m [] = m
update_all m (p ∷ ps) = update_all (update m p) ps

abbrev pub joined : List (List ℕ) → List ℕ
joined [] = []
joined (p ∷ ps) = p ++ joined ps

abbrev pub AllFit : List (List ℕ) → Type 0
AllFit [] = Unit {0}
AllFit (p ∷ ps) = Fits p × AllFit ps

update_all-Holds :
    (m : Md5) (message : List ℕ) (ps : List (List ℕ))
    → Holds m message
    → AllFit ps
    → Holds (update_all m ps) (message ++ joined ps)
update_all-Holds m message [] held fits = subst (Holds m) (sym (append-nil message)) held
update_all-Holds m message (p ∷ ps) held fits =
    subst (Holds (update_all (update m p) ps)) (append_assoc message p (joined ps)) (
      update_all-Holds (update m p) (message ++ p) ps (update-Holds m message p held fits.0) fits.1)

update_stream-Holds :
    (m : Md5) (message content : List ℕ)
    → Holds m message
    → Holds (update_stream m (some content)) (message ++ content)
unfolding update_stream
update_stream-Holds m message content held =
    unfold update_file in update_file-Holds m message (some content) held

-- However a text is divided into calls of `update`, the digest is the one of a context that was made
-- from the whole text, and of one that was made from a stream with that content: the digest of
-- RFC 1321. The pieces and the text have at most 2 ^ 32 - 64 bytes.
pub update_all-digest :
    (memory : Md5) (ps : List (List ℕ))
    → length memory.buffer ≡ 64
    → AllFit ps
    → Fits (joined ps)
    → let text = joined ps in
      ((digest (update_all (reset memory) ps)).1 ≡ md5 text)
      × ((digest (md5_of_text memory text)).1 ≡ md5 text)
      × ((digest (md5_of_stream memory (some text))).1 ≡ md5 text)
unfolding md5_of_text md5_of_stream
update_all-digest memory ps size fits fit = (
  digest-md5 (update_all (reset memory) ps) (joined ps)
      (update_all-Holds (reset memory) [] ps new fits),
  digest-md5 (update (reset memory) (joined ps)) (joined ps)
      (update-Holds (reset memory) [] (joined ps) new fit),
  digest-md5 (update_stream (reset memory) (some (joined ps))) (joined ps)
      (update_stream-Holds (reset memory) [] (joined ps) new),
)
  where
    new : Holds (reset memory) []
    new = reset-Holds memory size
