-- ===== src/Utf8/Tests.antt =====
-- Runs on concrete inputs.
use code_snippet.Common.{◌≡◌, [], ◌∷◌, not, arith}
use code_snippet.Utf8.{is_text_utf8}
use code_snippet.Utf8.Encoding.{encode_text, is_ascii}
use code_snippet.Utf8.TextTest.{is_text_utf8-encode_text}

is_text_utf8-encode_text_example :
    is_text_utf8 (encode_text (0x41 ∷ 0x1F600 ∷ [])) ≡ not (is_ascii (0x41 ∷ 0x1F600 ∷ []))
is_text_utf8-encode_text_example =
    is_text_utf8-encode_text (0x41 ∷ 0x1F600 ∷ []) (omega arith, (omega arith, tt))
