-- ===== src/Message/Delivery.antt =====
-- ReadData called again and again on one connection, as ServerDaemon::Run does: the frames arrive
-- whole and in order, however the network cuts the stream.
use code_snippet.Common.{
  ℕ, ◌<◌, ◌≡◌, refl, sym, ap, subst, ◌∙◌, List, [], ◌∷◌, ◌++◌, Option, none, some, arith, lt→ltb,
  length, length-append, append-nil, append_assoc,
}
use mathlib.Core.Option
use code_snippet.Socket.Framing.{complete, broken, overflow, out_of_fuel, Ending, Parsed, parse}
use code_snippet.Socket.Nul.{NulFree, NulFree-append}
use code_snippet.Socket.Stream.{parse-append, prepend_all, continue, continue_with, parse-NulFree}
use code_snippet.Socket.Client.{ClientSocket, ReadOutcome, reads, read_data}
use code_snippet.Message.Frames.{frames, AllFramable, finished, parse-frames}

abbrev pub concat : List (List ℕ) → List ℕ
concat [] = []
concat (z ∷ zs) = z ++ concat zs

abbrev then_read :
    (ClientSocket → Option (ClientSocket × List (List ℕ)))
    → ReadOutcome
    → Option (ClientSocket × List (List ℕ))
then_read next (reads c ms) =
    Option.map (λ (r : ClientSocket × List (List ℕ)). (r.0, ms ++ r.1)) (next c)
then_read next _ = none

-- One call for each piece; `none` if a call does not return 0.
abbrev pub read_all : ClientSocket → List (List ℕ) → Option (ClientSocket × List (List ℕ))
read_all c [] = some (c, [])
read_all c (z ∷ zs) = then_read (λ c'. read_all c' zs) (read_data c z)

-- `recv` delivered at least one byte each time.
abbrev pub AllNonempty : List (List ℕ) → Type 0
AllNonempty [] = Unit {0}
AllNonempty (z ∷ zs) = (0 < length z) × AllNonempty zs

prepend_all-ending : (ms : List (List ℕ)) (p : Parsed) → (prepend_all ms p).ending ≡ p.ending
prepend_all-ending [] p = refl
prepend_all-ending (m ∷ ms) p = prepend_all-ending ms p

prepend_all-buffer : (ms : List (List ℕ)) (p : Parsed) → (prepend_all ms p).buffer ≡ p.buffer
prepend_all-buffer [] p = refl
prepend_all-buffer (m ∷ ms) p = prepend_all-buffer ms p

prepend_all-messages :
    (ms : List (List ℕ)) (p : Parsed) → (prepend_all ms p).messages ≡ ms ++ p.messages
prepend_all-messages [] p = refl
prepend_all-messages (m ∷ ms) p = ap (◌∷◌ m) (prepend_all-messages ms p)

-- A part of a stream that is complete in the end is complete, as far as it goes.
continue_complete :
    (e : Ending) (p : Parsed) (more : List ℕ)
    → p.ending ≡ e
    → (continue p more).ending ≡ complete
    → p.ending ≡ complete
continue_complete complete p more e h = e
continue_complete broken p more e h = ground arith
continue_complete overflow p more e h = ground arith
continue_complete out_of_fuel p more e h = ground arith

read_complete :
    (c : ClientSocket) (z : List ℕ)
    → 0 < c.fd
    → 0 < length z
    → (parse (c.read_buffer ++ z)).ending ≡ complete
    → read_data c z
      ≡ reads
          (record c { read_buffer = (parse (c.read_buffer ++ z)).buffer })
          (parse (c.read_buffer ++ z)).messages
unfolding read_data
read_complete c z fd pos e = rw (lt→ltb 0 c.fd fd) (rw (lt→ltb 0 (length z) pos) (rw e refl))

NulFree-append_left : (xs ys : List ℕ) → NulFree (xs ++ ys) → NulFree xs
NulFree-append_left [] ys h = tt
NulFree-append_left (x ∷ xs) ys h = (h.0, NulFree-append_left xs ys h.1)

NulFree-append_right : (xs ys : List ℕ) → NulFree (xs ++ ys) → NulFree ys
NulFree-append_right [] ys h = h
NulFree-append_right (x ∷ xs) ys h = NulFree-append_right xs ys h.1

nothing_added : (xs ys : List (List ℕ)) → xs ≡ xs ++ ys → ys ≡ []
nothing_added xs [] e = refl
nothing_added xs (y ∷ ys) e = absurd (omega (arith, ap length e, length-append xs (y ∷ ys)))

-- The buffer holds no complete message.
abbrev IsDrained : List ℕ → Type 0
IsDrained b = parse b ≡ record { ending = complete; buffer = b; messages = [] }

module _ (b : List ℕ) (free : NulFree b) (done : (parse b).ending ≡ complete) where
  again : parse b ≡ prepend_all (parse b).messages (parse (parse b).buffer)
  again =
      ap parse (sym (append-nil b))
      ∙ parse-append b [] free
      ∙ ap (λ (e : Ending). continue_with e (parse b) []) done
      ∙ ap (λ (xs : List ℕ). prepend_all (parse b).messages (parse xs))
          (append-nil (parse b).buffer)

  parse-IsDrained : IsDrained (parse b).buffer
  parse-IsDrained = λ k. record {
    ending =
        (sym (prepend_all-ending (parse b).messages (parse (parse b).buffer))
            ∙ ap (λ (p : Parsed). p.ending) (sym again)
            ∙ done)
          k;
    buffer =
        (sym (prepend_all-buffer (parse b).messages (parse (parse b).buffer))
            ∙ ap (λ (p : Parsed). p.buffer) (sym again))
          k;
    messages =
        nothing_added (parse b).messages (parse (parse b).buffer).messages
          (ap (λ (p : Parsed). p.messages) again
            ∙ prepend_all-messages (parse b).messages (parse (parse b).buffer))
          k;
  }

-- One read in the middle of a stream: it succeeds, and the rest of the stream completes what it
-- left in the buffer.
module _ (b more : List ℕ) (ms : List (List ℕ)) (free : NulFree b)
    (whole : parse (b ++ more) ≡ finished ms) where
  joined : continue (parse b) more ≡ finished ms
  joined = sym (parse-append b more free) ∙ whole

  first_complete : (parse b).ending ≡ complete
  first_complete =
      continue_complete (parse b).ending (parse b) more refl (ap (λ (p : Parsed). p.ending) joined)

  rest : Parsed
  rest = parse ((parse b).buffer ++ more)

  split : prepend_all (parse b).messages rest ≡ finished ms
  unfolding rest
  split = ap (λ (e : Ending). continue_with e (parse b) more) (sym first_complete) ∙ joined

  rest-finished : rest ≡ finished rest.messages
  rest-finished = λ k. record {
    ending =
        (sym (prepend_all-ending (parse b).messages rest) ∙ ap (λ (p : Parsed). p.ending) split) k;
    buffer =
        (sym (prepend_all-buffer (parse b).messages rest) ∙ ap (λ (p : Parsed). p.buffer) split) k;
    messages = rest.messages;
  }

  all_messages : (parse b).messages ++ rest.messages ≡ ms
  all_messages =
      sym (prepend_all-messages (parse b).messages rest) ∙ ap (λ (p : Parsed). p.messages) split

module _ (b more : List ℕ) (ms : List (List ℕ)) (free : NulFree b)
    (whole : parse (b ++ more) ≡ finished ms) where
  tail_finished :
      parse ((parse b).buffer ++ more) ≡ finished (parse ((parse b).buffer ++ more)).messages
  unfolding rest
  tail_finished = rest-finished b more ms free whole

  tail_messages : (parse b).messages ++ (parse ((parse b).buffer ++ more)).messages ≡ ms
  unfolding rest
  tail_messages = all_messages b more ms free whole

deliver :
    (zs : List (List ℕ)) (c : ClientSocket) (ms : List (List ℕ))
    → 0 < c.fd
    → AllNonempty zs
    → NulFree (c.read_buffer ++ concat zs)
    → IsDrained c.read_buffer
    → parse (c.read_buffer ++ concat zs) ≡ finished ms
    → read_all c zs ≡ some (record c { read_buffer = [] }, ms)
deliver [] c ms fd full free drained whole =
    λ k. some (record c { read_buffer = (left k).buffer }, (left k).messages)
  where
    left : record { ending = complete; buffer = c.read_buffer; messages = [] } ≡ finished ms
    left = sym drained ∙ ap parse (sym (append-nil c.read_buffer)) ∙ whole
deliver (z ∷ zs) c ms fd full free drained whole =
    ap (then_read (λ c'. read_all c' zs))
      (read_complete c z fd full.0 (first_complete b (concat zs) ms b_free now))
    ∙ ap (Option.map (λ (r : ClientSocket × List (List ℕ)). (r.0, (parse b).messages ++ r.1))) (
        deliver zs (record c { read_buffer = (parse b).buffer }) _ fd full.1
          (NulFree-append (parse b).buffer (concat zs) (parse-NulFree b b_free)
            (NulFree-append_right b (concat zs) all_free))
          (parse-IsDrained b b_free (first_complete b (concat zs) ms b_free now))
          (tail_finished b (concat zs) ms b_free now))
    ∙ ap (λ (xs : List (List ℕ)). some (record c { read_buffer = [] }, xs))
        (tail_messages b (concat zs) ms b_free now)
  where
    b : List ℕ
    b = c.read_buffer ++ z

    all_free : NulFree (b ++ concat zs)
    all_free = subst NulFree (sym (append_assoc c.read_buffer z (concat zs))) free

    b_free : NulFree b
    b_free = NulFree-append_left b (concat zs) all_free

    now : parse (b ++ concat zs) ≡ finished ms
    now = ap parse (append_assoc c.read_buffer z (concat zs)) ∙ whole

-- A stream of framed texts without NUL bytes, each text non-empty and shorter than 2^31 bytes, cut into
-- non-empty pieces of any size, on a connected socket with an empty buffer: the calls of ReadData all
-- succeed, deliver exactly the texts that were framed, in their order, and leave the buffer empty.
pub read_all-frames :
    (fd : ℕ) (zs ms : List (List ℕ))
    → 0 < fd
    → AllNonempty zs
    → AllFramable ms
    → NulFree (frames ms)
    → concat zs ≡ frames ms
    → read_all (record { fd = fd; read_buffer = [] }) zs
      ≡ some (record { fd = fd; read_buffer = [] }, ms)
read_all-frames fd zs ms pos full framable free cut =
    deliver zs (record { fd = fd; read_buffer = [] }) ms pos full (subst NulFree (sym cut) free)
      (parse-frames [] tt) (ap parse cut ∙ parse-frames ms framable)
