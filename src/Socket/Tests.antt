-- ===== src/Socket/Tests.antt =====
-- Runs of the socket's code on concrete inputs.
use code_snippet.Common.{◌≡◌, refl, [], ◌∷◌, ◌++◌, none, some, arith, codes}
use code_snippet.Common.Decimal.{atoi}
use code_snippet.Socket.Framing.{broken, parse}
use code_snippet.Socket.Nul.{NulFree}
use code_snippet.Socket.Stream.{parse-append, continue}
use code_snippet.Socket.Client.{ClientSocket, fails, read_data, write_data}
use code_snippet.Socket.Broken.{AllFail, read_data_broken_forever}
use code_snippet.Socket.Sending.{Sent, write_data-Sent}

abbrev home : ClientSocket
home = record { fd = 5; read_buffer = [] }

abc_free : NulFree (codes "3:abc")
abc_free = ((omega arith), ((omega arith), ((omega arith), ((omega arith), ((omega arith), tt)))))

parse-append_example :
    parse (codes "3:abc" ++ codes "2:xy") ≡ continue (parse (codes "3:abc")) (codes "2:xy")
parse-append_example = parse-append (codes "3:abc") (codes "2:xy") abc_free

-- A header with a letter in it.
bad_free : NulFree (codes "x:abc")
bad_free = ((omega arith), ((omega arith), ((omega arith), ((omega arith), ((omega arith), tt)))))

bad : (parse (codes "x:abc")).ending ≡ broken
unfolding parse atoi
bad = refl

read_data_broken_forever_example :
    let left = (parse (codes "x:abc")).buffer in
    (read_data home (codes "x:abc")
      ≡ fails (record home { read_buffer = left }) (parse (codes "x:abc")).messages)
    × AllFail (record home { read_buffer = left }) (codes "3:abc" ∷ codes "2:xy" ∷ [])
read_data_broken_forever_example =
    read_data_broken_forever home (codes "x:abc") (codes "3:abc" ∷ codes "2:xy" ∷ []) (omega arith)
      (omega arith) bad_free bad (omega arith, (omega arith, tt))

write_data-Sent_example : Sent (codes "abc") 0 (write_data home (some 2 ∷ none ∷ []) (codes "abc"))
write_data-Sent_example =
    write_data-Sent home (some 2 ∷ none ∷ []) (codes "abc") (omega arith) (omega arith, tt)
