-- ===== src/Md5/Codec.antt =====
-- Md5.cpp: the little-endian codecs between words and bytes, and the hexadecimal
-- text of a digest. A byte is a number below 256, a text the list of its characters' codes.
use Prim.Native.Nat.{bit_and, bit_or}
use code_snippet.Common.{ℕ, ◌/◌, ◌%◌, List, [], ◌∷◌, ◌<<<◌, ◌>>>◌, get_or}

-- The casts to byte come after the mask, so they cut nothing off.
unfoldable pub encode : List ℕ → List ℕ
encode [] = []
encode (w ∷ ws) =
    bit_and w 0xff
    ∷ bit_and (w >>> 8) 0xff
    ∷ bit_and (w >>> 16) 0xff
    ∷ bit_and (w >>> 24) 0xff
    ∷ encode ws

-- The length is a multiple of 4; what is left over otherwise is not read.
unfoldable pub decode : List ℕ → List ℕ
decode (p ∷ q ∷ r ∷ s ∷ rest) =
    bit_or (bit_or (bit_or p (q <<< 8)) (r <<< 16)) (s <<< 24) ∷ decode rest
decode _ = []

-- MD5::HEX
abbrev pub hex : List ℕ
hex =
    b'0' ∷ b'1' ∷ b'2' ∷ b'3' ∷ b'4' ∷ b'5' ∷ b'6' ∷ b'7' ∷ b'8' ∷ b'9' ∷ b'a' ∷ b'b' ∷ b'c' ∷ b'd'
    ∷ b'e' ∷ b'f' ∷ []

unfoldable pub bytes_to_hex_string : List ℕ → List ℕ
bytes_to_hex_string [] = []
bytes_to_hex_string (t ∷ input) =
    get_or hex (t / 16) 0 ∷ get_or hex (t % 16) 0 ∷ bytes_to_hex_string input
