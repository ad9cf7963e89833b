-- ===== src/Message/Tests.antt =====
-- Frames on concrete inputs.
use code_snippet.Common.{◌<◌, ◌^◌, ◌≡◌, refl, subst, [], ◌∷◌, ◌++◌, some, arith, length, codes}
use code_snippet.Common.Decimal.{decimal}
use code_snippet.Socket.Nul.{NulFree}
use code_snippet.Message.{body, frame}
use code_snippet.Message.Frames.{frames}
use code_snippet.Message.Delivery.{read_all, read_all-frames}

short_body : length (body (codes "A") (codes "{}")) < 2 ^ 31
unfolding body
short_body = omega arith

two_pieces : codes "1:" ++ (codes "z" ++ []) ≡ frames (codes "z" ∷ [])
unfolding frame decimal
two_pieces = refl

read_all_example :
    read_all (record { fd = 5; read_buffer = [] }) (codes "1:" ∷ codes "z" ∷ [])
    ≡ some (record { fd = 5; read_buffer = [] }, codes "z" ∷ [])
read_all_example =
    read_all-frames 5 (codes "1:" ∷ codes "z" ∷ []) (codes "z" ∷ []) (omega arith)
      (omega arith, (omega arith, tt)) ((omega arith, omega arith), tt)
      (subst NulFree two_pieces (omega arith, (omega arith, (omega arith, tt)))) two_pieces
