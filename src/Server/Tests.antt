-- ===== src/Server/Tests.antt =====
-- Runs on concrete inputs.
use code_snippet.Common.{
  ℕ, suc, inl, inr, subst, ◌≡◌, refl, List, [], ◌∷◌, true, false, Option, none, some, arith, ◌==◌,
  if◌then◌else◌, codes,
}
use code_snippet.Common.Decimal.{decimal}
use code_snippet.Socket.Nul.{NulFree}
use code_snippet.Message.Frames.{frames}
use code_snippet.Message.Delivery.{concat, read_all}
use code_snippet.Message.{frame}
use code_snippet.Server.{goes, terminates, Input, round, flush_loop, flush_message}
use code_snippet.Server.Sole.{socket, idle, serving, IsSafe}
use code_snippet.Server.Rounds.{IsValid}
use code_snippet.Server.Runs.{
  Action, rounds, queues, run_actions, run_actions-IsSafe, round-terminates,
}
use code_snippet.Queue.Owned.{Store}
use code_snippet.Queue.Ownership.{Implements}
use code_snippet.Server.Stored.{flush_stored, Flushes, flush_stored-Flushes}
use code_snippet.Server.Flush.{AllBusy, framed, flush_message-read_all}

abbrev waiting : ℕ → Option (List ℕ)
waiting n = if n == 7 then some (b'x' ∷ []) else none

abbrev connecting : ℕ → Input
connecting fd = record { selected = true; accepted = some fd; readable = waiting; sent = [] }

connecting-IsValid : (n : ℕ) → IsValid (connecting (suc n))
connecting-IsValid n fd e = ground arith

abbrev two_clients : List Action
two_clients = rounds (connecting 5) ∷ queues (b'm' ∷ []) ∷ rounds (connecting 6) ∷ []

run_actions-IsSafe_example : IsSafe (run_actions (b's' ∷ []) two_clients (goes (idle []) []))
run_actions-IsSafe_example =
    run_actions-IsSafe (b's' ∷ []) two_clients (connecting-IsValid 4, (connecting-IsValid 5, tt))

round-terminates_example : round (b's' ∷ []) (serving 7 [] []) (connecting 9) ≡ terminates
round-terminates_example =
    round-terminates (b's' ∷ []) (b'x' ∷ []) 9 7 [] [] (connecting 9) (omega arith) (omega arith)
      (ground arith) (ground arith) refl refl refl

abbrev pieces : List (List ℕ)
pieces = codes "1:" ∷ codes "z" ∷ []

pieces-concat : concat pieces ≡ frames (codes "z" ∷ [])
unfolding frame decimal
pieces-concat = refl

abbrev slow : List (Option ℕ)
slow = some 1 ∷ some 2 ∷ some 0 ∷ some 0 ∷ []

slow-AllBusy : AllBusy (slow ∷ []) (framed (codes "z" ∷ []))
unfolding frame decimal
slow-AllBusy = (
  omega arith,
  (
    omega arith,
    inr (omega arith),
    (omega arith, inr (omega arith), (omega arith, inl refl, (omega arith, inl refl, tt))),
  ),
  tt,
)

flush_message-read_all_example :
    (flush_message (serving 5 [] (framed (codes "z" ∷ []))) (slow ∷ [])
      ≡ goes (serving 5 [] []) (concat pieces))
    × (read_all (socket 8 []) pieces ≡ some (socket 8 [], codes "z" ∷ []))
flush_message-read_all_example =
    flush_message-read_all 5 8 [] (codes "z" ∷ []) pieces (slow ∷ []) (omega arith) (omega arith)
      slow-AllBusy ((omega arith, omega arith), tt)
      (subst NulFree pieces-concat (omega arith, (omega arith, (omega arith, tt))))
      (omega arith, (omega arith, tt)) pieces-concat

-- One message in the queue of pointers, at address 1.
abbrev one_message : Store (List ℕ)
one_message = record {
  queue = record { size = 128; inner_queue = 1 ∷ []; locked = false };
  heap = λ p. if p == 1 then some (codes "z") else none;
  next = 2;
}

one_message-Implements : Implements 128 one_message (codes "z" ∷ [])
one_message-Implements = record {
  free = refl;
  sized = refl;
  rising = (omega arith, omega arith);
  pointed = refl;
  owned = λ p. ground arith;
}

flush_stored-Flushes_example :
    Flushes 128
      (flush_stored 1 (socket 7 []) (slow ∷ []) one_message)
      (flush_loop (socket 7 []) (slow ∷ []) (codes "z" ∷ []))
flush_stored-Flushes_example =
    flush_stored-Flushes 128 1 (socket 7 []) (slow ∷ []) one_message (codes "z" ∷ [])
      one_message-Implements (omega arith)
