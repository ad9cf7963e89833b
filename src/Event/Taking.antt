-- ===== src/Event/Taking.antt =====
-- ffos/ota/src/event/EventLooper.cpp: a round of the looper with pointers, and taking an object out.
use code_snippet.Common.{ℕ, ◌≡◌, refl, List, [], ◌∷◌, Bool, true, false, Option, none, some}
use code_snippet.Queue.{MutexQueue, pop, front}
use code_snippet.Queue.Owned.{Store, Result, gives, waits, undefined, take_out, delete_then_pop}
use code_snippet.Event.{Event, Listener, Delivery, deliveries}
use code_snippet.Event.Stored.{dispatch_at, dispatch_stored}

-- A round is taking an event out, and its calls.
abbrev pub calls_for : List Listener → Result Event Event → Result Event (List Delivery)
calls_for ls (gives s e) = gives s (deliveries e ls)
calls_for ls waits = waits
calls_for ls undefined = undefined

calls-dispatch :
    (s : Store Event) (q : MutexQueue) (p : ℕ) (ls : List Listener) (o : Option Event)
    (rest : List ℕ)
    → dispatch_at s (record q { inner_queue = rest; locked = false }) p ls o
      ≡ calls_for ls (delete_then_pop s (record q { inner_queue = p ∷ rest; locked = false }) p o)
unfolding pop
calls-dispatch s q p ls none rest = refl
calls-dispatch s q p ls (some e) rest = refl

dispatch-take_out :
    (n : ℕ) (ts : List ℕ) (heap : ℕ → Option Event) (next : ℕ) (ls : List Listener)
    → let s : Store Event = record {
      queue = record { size = n; inner_queue = ts; locked = false };
      heap = heap;
      next = next;
    } in
      dispatch_stored s ls ≡ calls_for ls (take_out s)
unfolding dispatch_stored take_out front pop
dispatch-take_out n [] heap next ls = refl
dispatch-take_out n (p ∷ ps) heap next ls =
    calls-dispatch
      (record {
        queue = record { size = n; inner_queue = p ∷ ps; locked = false };
        heap = heap;
        next = next;
      })
      (record { size = n; inner_queue = p ∷ ps; locked = false }) p ls (heap p) ps

pub dispatch-calls :
    (s : Store Event) (locked : Bool) (ls : List Listener)
    → locked ≡ false
    → let s' = record s { queue = record s.queue { locked = locked } } in
      dispatch_stored s' ls ≡ calls_for ls (take_out s')
dispatch-calls s true ls free = absurd (cc free)
dispatch-calls s false ls free = dispatch-take_out s.queue.size s.queue.inner_queue s.heap s.next ls
