-- ===== src/Md5/Checksum.antt =====
-- Md5.cpp, updateFile and Md5Checksum: reading a file in pieces of 1024 bytes, and the comparison
-- of its digest. The file is its content, or `none` where it cannot be opened.
use code_snippet.Common.{
  ℕ, zero, suc, ◌+◌, ◌≤◌, ◌<◌, ◌≡◌, ◌↔◌, refl, sym, ap, subst, ◌∙◌, inl, inr, List, [], ◌∷◌, ◌++◌,
  Bool, true, Option, none, some, arith, ltb, if◌then◌else◌, Bool-cases, lt→ltb, ltb→lt,
  ltb_false→le, length, take, drop, append-nil, append_assoc, take-append-drop, length-take,
  length-drop, take_all, text_eq, text_eq_iff,
}
use code_snippet.Md5.Codec.{bytes_to_hex_string}
use code_snippet.Md5.Context.{Md5, reset, update, digest, to_string}
use code_snippet.Md5.Padding.{md5}
use code_snippet.Md5.Digest.{Holds, reset-Holds, update-Holds, digest-md5}

-- `while (!in.eof())`: the stream is at its end once a read came back short.
unfoldable pub read_pieces : ℕ → Md5 → List ℕ → Md5
read_pieces zero m content = m
read_pieces (suc fuel) m content =
    let piece = take 1024 content in
    let m' = if ltb 0 (length piece) then update m piece else m in
    let rest = read_pieces fuel m' (drop 1024 content) in
    if ltb (length piece) 1024 then m' else rest

unfoldable pub update_file : Md5 → Option (List ℕ) → Md5
unfolding read_pieces
update_file m none = m
update_file m (some content) = read_pieces (length content + 1) m content

-- The first argument is the memory of the new MD5 object.
unfoldable pub md5_checksum : Md5 → Option (List ℕ) → List ℕ → Bool
unfolding reset update_file to_string
md5_checksum memory file checksum = text_eq (to_string (update_file (reset memory) file)).1 checksum

-- One round: what was read is appended to the message.
piece-Holds :
    (m : Md5) (message piece : List ℕ)
    → Holds m message
    → length piece ≤ 1024
    → Holds (if ltb 0 (length piece) then update m piece else m) (message ++ piece)
piece-Holds m message [] held h = rw append-nil held
piece-Holds m message (x ∷ xs) held h =
    rw (lt→ltb 0 (length (x ∷ xs)) (omega arith))
      (update-Holds m message (x ∷ xs) held (omega arith))

-- Every piece but the last takes 1024 bytes, so this fuel is enough.
read_pieces-Holds :
    (fuel : ℕ) (m : Md5) (message content : List ℕ)
    → Holds m message
    → length content < fuel
    → Holds (read_pieces fuel m content) (message ++ content)
unfolding read_pieces
read_pieces-Holds zero m message content held enough = absurd (omega arith)
read_pieces-Holds (suc fuel) m message content held enough =
    elim (Bool-cases (ltb (length (take 1024 content)) 1024)) [
      | inl last ↦
          rw last
            (subst (λ (xs : List ℕ). Holds m' (message ++ xs)) (all_read (ltb→lt _ _ last)) now)
      | inr more ↦ rw more (
          subst (Holds (read_pieces fuel m' (drop 1024 content))) regroup (
            read_pieces-Holds fuel m' (message ++ take 1024 content) (drop 1024 content) now
              (shorter (ltb_false→le _ _ more))))
    ]
  where
    m' : Md5
    m' = if ltb 0 (length (take 1024 content)) then update m (take 1024 content) else m

    now : Holds m' (message ++ take 1024 content)
    now = piece-Holds m message (take 1024 content) held (omega (arith, length-take 1024 content))

    all_read : length (take 1024 content) < 1024 → take 1024 content ≡ content
    all_read h = take_all 1024 content (omega (arith, length-take 1024 content))

    shorter : 1024 ≤ length (take 1024 content) → length (drop 1024 content) < fuel
    shorter h = omega (arith, length-take 1024 content, length-drop 1024 content)

    regroup : (message ++ take 1024 content) ++ drop 1024 content ≡ message ++ content
    regroup =
        append_assoc message (take 1024 content) (drop 1024 content)
        ∙ ap (◌++◌ message) (take-append-drop 1024 content)

-- What an unreadable file is taken for.
abbrev pub content_of : Option (List ℕ) → List ℕ
content_of none = []
content_of (some content) = content

-- A file of any size is read to its end, and the context then stands for its content; a file that
-- cannot be opened counts as empty.
pub update_file-Holds :
    (m : Md5) (message : List ℕ) (file : Option (List ℕ))
    → Holds m message
    → Holds (update_file m file) (message ++ content_of file)
unfolding update_file
update_file-Holds m message none held = rw append-nil held
update_file-Holds m message (some content) held =
    read_pieces-Holds (length content + 1) m message content held (omega arith)

-- The checksum of a file is accepted exactly when it is the lower-case hexadecimal text of the
-- digest that RFC 1321 defines for the file's content, the empty content for an unreadable file.
pub md5_checksum_iff :
    (memory : Md5) (file : Option (List ℕ)) (checksum : List ℕ)
    → length memory.buffer ≡ 64
    → (md5_checksum memory file checksum ≡ true)
      ↔ (checksum ≡ bytes_to_hex_string (md5 (content_of file)))
md5_checksum_iff memory file checksum size = (
  λ h. sym ((text_eq_iff _ checksum).0 (sym (opened memory file checksum) ∙ h)) ∙ text,
  λ h. opened memory file checksum ∙ (text_eq_iff _ checksum).1 (text ∙ sym h),
)
  where
    opened :
        (memory : Md5) (file : Option (List ℕ)) (checksum : List ℕ)
        → md5_checksum memory file checksum
          ≡ text_eq (bytes_to_hex_string (digest (update_file (reset memory) file)).1) checksum
    opened memory file checksum = unfold md5_checksum in refl

    text :
        bytes_to_hex_string (digest (update_file (reset memory) file)).1
        ≡ bytes_to_hex_string (md5 (content_of file))
    text = ap bytes_to_hex_string (
        digest-md5 (update_file (reset memory) file) (content_of file)
          (update_file-Holds (reset memory) [] file (reset-Holds memory size)))
