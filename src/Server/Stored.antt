-- ===== src/Server/Stored.antt =====
-- ffos/ota/src/ota/daemon/ServerDaemonImpl.cpp: the message queue as a MutexQueue of pointers, and the
-- loop of flushMessage over it.
use code_snippet.Common.{
  ℕ, zero, suc, ◌≤◌, ◌≡◌, refl, sym, subst, inl, inr, Bool-cases, ap, List, [], ◌∷◌, ◌++◌, Option,
  none, some, arith, ltb, lt→ltb, if◌then◌else◌, length,
}
use code_snippet.Socket.Client.{
  ClientSocket, is_connected, WriteOutcome, disconnected, failed, blocked, written, write_data,
}
use code_snippet.Queue.Owned.{Store, Result, gives, waits, undefined, take_out}
use code_snippet.Queue.Ownership.{Implements, Takes, take_out-Takes, Implements-length}
use code_snippet.Server.{flush_loop}

-- What is written in front of the rest.
abbrev pub and_bytes : List ℕ → Result (List ℕ) (List ℕ) → Result (List ℕ) (List ℕ)
and_bytes bytes (gives s more) = gives s (bytes ++ more)
and_bytes bytes waits = waits
and_bytes bytes undefined = undefined

-- WriteData does not return while the socket takes nothing.
abbrev pub after_write : WriteOutcome × List ℕ → Result (List ℕ) (List ℕ) → Result (List ℕ) (List ℕ)
after_write (blocked n, bytes) rest = waits
after_write (written n, bytes) rest = and_bytes bytes rest
after_write (failed, bytes) rest = and_bytes bytes rest
after_write (disconnected, bytes) rest = and_bytes bytes rest

abbrev pub results_of : List (List (Option ℕ)) → List (Option ℕ)
results_of [] = []
results_of (r ∷ rs) = r

abbrev pub later_of : List (List (Option ℕ)) → List (List (Option ℕ))
later_of [] = []
later_of (r ∷ rs) = rs

-- `while (m_MessageQueue->Size() > 0)` of flushMessage, with the bytes that go out.
unfoldable pub flush_stored :
    ℕ → ClientSocket → List (List (Option ℕ)) → Store (List ℕ) → Result (List ℕ) (List ℕ)
flush_stored zero c sent s = gives s []
flush_stored (suc fuel) c sent s =
    if ltb 0 (length s.queue.inner_queue)
    then elim (take_out s) [
      | gives s' m ↦
          let rest = flush_stored fuel c (later_of sent) s' in
          let unsent = flush_stored fuel c sent s' in
          if is_connected c then after_write (write_data c (results_of sent) m) rest else unsent
      | waits ↦ waits
      | undefined ↦ undefined
    ]
    else gives s []

-- What the loop over pointers is to come to, for what the loop over messages comes to.
abbrev pub Flushes : ℕ → Result (List ℕ) (List ℕ) → Option (List ℕ) → Type 0
Flushes size (gives s bytes) (some bytes') = Implements size s [] × (bytes ≡ bytes')
Flushes size waits none = Unit
Flushes size _ _ = ⊥

and_bytes-Flushes :
    (size : ℕ) (bytes : List ℕ) (r : Result (List ℕ) (List ℕ)) (o : Option (List ℕ))
    → Flushes size r o
    → Flushes size (and_bytes bytes r) (elim o [ none ↦ none | some more ↦ some (bytes ++ more) ])
and_bytes-Flushes size bytes (gives s more) (some more') h = (h.0, ap (◌++◌ bytes) h.1)
and_bytes-Flushes size bytes (gives s more) none h = absurd h
and_bytes-Flushes size bytes waits none h = tt
and_bytes-Flushes size bytes waits (some more) h = absurd h
and_bytes-Flushes size bytes undefined none h = absurd h
and_bytes-Flushes size bytes undefined (some more) h = absurd h

write_step :
    (size : ℕ) (w : WriteOutcome × List ℕ) (r : Result (List ℕ) (List ℕ)) (o : Option (List ℕ))
    → Flushes size r o
    → Flushes size (after_write w r) (elim w.0 [
      | blocked n ↦ none
      | _ ↦ elim o [ none ↦ none | some bytes ↦ some (w.1 ++ bytes) ]
    ])
write_step size (blocked n, bytes) r o h = tt
write_step size (written n, bytes) r o h = and_bytes-Flushes size bytes r o h
write_step size (failed, bytes) r o h = and_bytes-Flushes size bytes r o h
write_step size (disconnected, bytes) r o h = and_bytes-Flushes size bytes r o h

module _ (size fuel : ℕ) (c : ClientSocket) (ms : List (List ℕ)) where
  connected_step :
      (sent : List (List (Option ℕ))) (s : Store (List ℕ)) (m : List ℕ)
      → Flushes size (flush_stored fuel c (later_of sent) s) (flush_loop c (later_of sent) ms)
      → Flushes size (flush_stored fuel c sent s) (flush_loop c sent ms)
      → Flushes size
          (if is_connected c
            then after_write
                (write_data c (results_of sent) m)
                (flush_stored fuel c (later_of sent) s)
            else flush_stored fuel c sent s)
          (flush_loop c sent (m ∷ ms))
  unfolding flush_loop
  connected_step [] s m later unsent = elim (Bool-cases (is_connected c)) [
    | inl on ↦
        rw on (
          write_step size (write_data c [] m) (flush_stored fuel c [] s) (flush_loop c [] ms) later)
    | inr off ↦ rw off unsent
  ]
  connected_step (r ∷ rs) s m later unsent = elim (Bool-cases (is_connected c)) [
    | inl on ↦
        rw on
          (write_step size (write_data c r m) (flush_stored fuel c rs s) (flush_loop c rs ms) later)
    | inr off ↦ rw off unsent
  ]

  message_step :
      (sent : List (List (Option ℕ))) (r : Result (List ℕ) (List ℕ)) (m : List ℕ)
      → Takes size r (m ∷ ms)
      → ((sent' : List (List (Option ℕ))) (s : Store (List ℕ))
          → Implements size s ms
          → Flushes size (flush_stored fuel c sent' s) (flush_loop c sent' ms))
      → Flushes size
          (elim r [
            | gives s' m' ↦
                if is_connected c
                then after_write
                    (write_data c (results_of sent) m')
                    (flush_stored fuel c (later_of sent) s')
                else flush_stored fuel c sent s'
            | waits ↦ waits
            | undefined ↦ undefined
          ])
          (flush_loop c sent (m ∷ ms))
  message_step sent (gives s m') m taken rest =
      subst
        (λ (x : List ℕ).
          Flushes size
            (if is_connected c
              then after_write (write_data c (results_of sent) x)
                  (flush_stored fuel c (later_of sent) s)
              else flush_stored fuel c sent s)
            (flush_loop c sent (m ∷ ms)))
        (sym taken.1)
        (connected_step sent s m (rest (later_of sent) s taken.0) (rest sent s taken.0))
  message_step sent waits m taken rest = absurd taken
  message_step sent undefined m taken rest = absurd taken

-- A queue of pointers that stands for a list of messages, with enough fuel for it: the loop of
-- flushMessage writes what the loop over the list writes, or waits for ever with it, uses no deleted
-- message, deletes each one, and leaves the queue empty.
pub flush_stored-Flushes :
    (size fuel : ℕ) (c : ClientSocket) (sent : List (List (Option ℕ))) (s : Store (List ℕ))
    (ms : List (List ℕ))
    → Implements size s ms
    → length ms ≤ fuel
    → Flushes size (flush_stored fuel c sent s) (flush_loop c sent ms)
unfolding flush_stored flush_loop
flush_stored-Flushes size zero c sent s [] h enough = (h, refl)
flush_stored-Flushes size zero c sent s (m ∷ ms) h enough = absurd (omega arith)
flush_stored-Flushes size (suc fuel) c sent s [] h enough =
    rw (ap (ltb 0) (Implements-length size s [] h)) (h, refl)
flush_stored-Flushes size (suc fuel) c sent s (m ∷ ms) h enough =
    rw (ap (ltb 0) (Implements-length size s (m ∷ ms) h)) (
      rw (lt→ltb 0 (suc (length ms)) (omega arith)) (
        message_step size fuel c ms sent (take_out s) m (take_out-Takes size s (m ∷ ms) h)
          (λ sent' s' h'. flush_stored-Flushes size fuel c sent' s' ms h' (omega arith))))
