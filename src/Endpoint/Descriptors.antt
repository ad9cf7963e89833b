-- ===== src/Endpoint/Descriptors.antt =====
-- No descriptor is lost, and none is closed twice.
use code_snippet.Common.{
  ℕ, ◌≡◌, ◌<◌, refl, sym, ap, ◌∙◌, inl, inr, List, [], ◌∷◌, ◌++◌, Bool, true, false, Option, none,
  some, ltb, lt→ltb, if◌then◌else◌, Bool-cases, append_assoc, append-nil,
}
use code_snippet.Socket.Client.{ClientSocket, is_connected}
use code_snippet.Endpoint.{
  Try, no_socket, refuses, opens, ServerCalls, server_try, ClientCalls, client_try, Search,
  next_search, find_server, init, find_client, connect, ServerSocket, new_server, starts_with,
  start, stop,
}

-- What `socket` returned for an address and, unless it works, for the later ones.
abbrev pub created_then : Try → List ℕ → List ℕ
created_then no_socket later = later
created_then (refuses fd) later = fd ∷ later
created_then (opens fd) later = fd ∷ []

abbrev pub created_by_init : List ServerCalls → List ℕ
created_by_init [] = []
created_by_init (c ∷ cs) = created_then (server_try c) (created_by_init cs)

abbrev pub created_by_connect : List ClientCalls → List ℕ
created_by_connect [] = []
created_by_connect (c ∷ cs) = created_then (client_try c) (created_by_connect cs)

-- The descriptor that is held.
abbrev pub held : ℕ → List ℕ
held fd = if ltb 0 fd then fd ∷ [] else []

-- `socket` does not return 0, which is the standard input.
abbrev pub IsPositive : Option ℕ → Type 0
IsPositive none = Unit {0}
IsPositive (some fd) = 0 < fd

abbrev pub AllServers : List ServerCalls → Type 0
AllServers [] = Unit {0}
AllServers (c ∷ cs) = IsPositive c.created × AllServers cs

abbrev pub AllClients : List ClientCalls → Type 0
AllClients [] = Unit {0}
AllClients (c ∷ cs) = IsPositive c.created × AllClients cs

accounts :
    (created : Option ℕ) (ready : Bool) (later : List ℕ) (rest : Search)
    → IsPositive created
    → later ≡ rest.closed ++ held rest.fd
    → let t : Try = elim created [
      | none ↦ no_socket
      | some fd ↦ if ready then opens fd else refuses fd
    ] in
      created_then t later ≡ (next_search t rest).closed ++ held (next_search t rest).fd
accounts none ready later rest pos h = h
accounts (some fd) true later rest pos h = rw (lt→ltb 0 fd pos) refl
accounts (some fd) false later rest pos h = ap (◌∷◌ fd) h

find_server-accounts :
    (cs : List ServerCalls)
    → AllServers cs
    → created_by_init cs ≡ (find_server cs).closed ++ held (find_server cs).fd
unfolding find_server server_try
find_server-accounts [] h = refl
find_server-accounts (c ∷ cs) h =
    accounts c.created _ (created_by_init cs) (find_server cs) h.0 (find_server-accounts cs h.1)

find_client-accounts :
    (cs : List ClientCalls)
    → AllClients cs
    → created_by_connect cs ≡ (find_client cs).closed ++ held (find_client cs).fd
unfolding find_client client_try
find_client-accounts [] h = refl
find_client-accounts (c ∷ cs) h =
    accounts c.created _ (created_by_connect cs) (find_client cs) h.0 (find_client-accounts cs h.1)

abbrev pub created_by_start : ServerSocket → Option (List ServerCalls) → List ℕ
created_by_start s none = []
created_by_start s (some cs) = if s.started then [] else created_by_init cs

-- What the owner of a ServerSocket does.
pub data Action : Type 0 where
  starting : Option (List ServerCalls) → Action
  stopping : Action

abbrev pub AllValid : List Action → Type 0
AllValid [] = Unit {0}
AllValid (starting none ∷ actions) = AllValid actions
AllValid (starting (some cs) ∷ actions) = AllServers cs × AllValid actions
AllValid (stopping ∷ actions) = AllValid actions

-- The socket, the descriptors that were created and those that were closed, in their order.
pub record Trace : Type 0 where
  pub socket : ServerSocket
  pub created : List ℕ
  pub closed : List ℕ

abbrev pub act : Action → Trace → Trace
act (starting addresses) t = record {
  socket = (start t.socket addresses).0;
  created = t.created ++ created_by_start t.socket addresses;
  closed = t.closed ++ (start t.socket addresses).2;
}
act stopping t = record {
  socket = (stop t.socket).0;
  created = t.created;
  closed = t.closed ++ (stop t.socket).2;
}

abbrev pub act_all : List Action → Trace → Trace
act_all [] t = t
act_all (a ∷ actions) t = act_all actions (act a t)

-- The socket is started exactly if it holds a descriptor, and every descriptor that was created has been
-- closed once, in the same order, but for the one that is held.
pub record Accounted (t : Trace) : Type 0 where
  pub started_iff : t.socket.started ≡ ltb 0 t.socket.fd
  pub balance : t.created ≡ t.closed ++ held t.socket.fd

-- A step that starts with `before` held and ends with `after` held.
abbrev Balances : ServerSocket → ServerSocket → List ℕ → List ℕ → Type 0
Balances s s' created closed =
    (s'.started ≡ ltb 0 s'.fd) × (held s.fd ++ created ≡ closed ++ held s'.fd)

started-Balances :
    (s : ServerSocket) (found : Search) (created : List ℕ)
    → s.started ≡ false
    → s.started ≡ ltb 0 s.fd
    → created ≡ found.closed ++ held found.fd
    → Balances s (starts_with s found).0 created (starts_with s found).2
started-Balances s found created idle iff h = elim (Bool-cases (ltb 0 found.fd)) [
  | inl open_ ↦ rw open_ (sym open_, rw (sym iff ∙ idle) (h ∙ rw open_ refl))
  | inr none_ ↦ rw none_ (iff, rw (sym iff ∙ idle) (h ∙ rw none_ refl))
]

abbrev server : ℕ → ℕ → Bool → ServerSocket
server fd port started = record { fd = fd; port = port; started = started }

start-Balances :
    (fd port : ℕ) (started : Bool) (addresses : Option (List ServerCalls))
    → AllValid (starting addresses ∷ [])
    → started ≡ ltb 0 fd
    → Balances
        (server fd port started)
        (start (server fd port started) addresses).0
        (created_by_start (server fd port started) addresses)
        (start (server fd port started) addresses).2
unfolding start init
start-Balances fd port true none valid iff = (iff, append-nil (held fd))
start-Balances fd port true (some cs) valid iff = (iff, append-nil (held fd))
start-Balances fd port false none valid iff = (iff, append-nil (held fd))
start-Balances fd port false (some cs) valid iff =
    started-Balances (server fd port false) (find_server cs) (created_by_init cs) refl iff
      (find_server-accounts cs valid.0)

stop-Balances :
    (fd port : ℕ) (started : Bool)
    → started ≡ ltb 0 fd
    → Balances
        (server fd port started)
        (stop (server fd port started)).0
        []
        (stop (server fd port started)).2
unfolding stop
stop-Balances fd port started iff = elim (Bool-cases (ltb 0 fd)) [
  | inl open_ ↦ rw open_ (refl, refl)
  | inr none_ ↦ rw none_ (sym none_, rw none_ refl)
]

join :
    (created closed new_created new_closed before after : List ℕ)
    → created ≡ closed ++ before
    → before ++ new_created ≡ new_closed ++ after
    → created ++ new_created ≡ (closed ++ new_closed) ++ after
join created closed new_created new_closed before after h k =
    ap (λ (xs : List ℕ). xs ++ new_created) h
    ∙ append_assoc closed before new_created
    ∙ ap (◌++◌ closed) k
    ∙ sym (append_assoc closed new_closed after)

act-Accounted : (a : Action) (t : Trace) → AllValid (a ∷ []) → Accounted t → Accounted (act a t)
act-Accounted (starting addresses) t valid h =
    let (iff, moved) =
      start-Balances t.socket.fd t.socket.port t.socket.started addresses valid h.started_iff in
    record { started_iff = iff; balance = join t.created t.closed _ _ _ _ h.balance moved }
act-Accounted stopping t valid h =
    let (iff, moved) = stop-Balances t.socket.fd t.socket.port t.socket.started h.started_iff in
    record {
      started_iff = iff;
      balance = sym (append-nil t.created) ∙ join t.created t.closed [] _ _ _ h.balance moved;
    }

act_all_from :
    (actions : List Action) (t : Trace)
    → AllValid actions
    → Accounted t
    → Accounted (act_all actions t)
act_all_from [] t valid h = h
act_all_from (starting none ∷ actions) t valid h =
    act_all_from actions (act (starting none) t) valid (act-Accounted (starting none) t tt h)
act_all_from (starting (some cs) ∷ actions) t valid h =
    act_all_from actions (act (starting (some cs)) t) valid.1
      (act-Accounted (starting (some cs)) t (valid.0, tt) h)
act_all_from (stopping ∷ actions) t valid h =
    act_all_from actions (act stopping t) valid (act-Accounted stopping t tt h)

-- A new ServerSocket through any calls of Start and Stop, whatever the system answers for each address
-- (a descriptor that it creates is not 0): the socket is started exactly when it holds a descriptor, and
-- every other descriptor that was ever created for it has been closed, once each and in the same order.
pub act_all-Accounted :
    (port : ℕ) (actions : List Action)
    → AllValid actions
    → Accounted (act_all actions (record { socket = new_server port; created = []; closed = [] }))
act_all-Accounted port actions valid =
    act_all_from actions (record { socket = new_server port; created = []; closed = [] }) valid
      (record { started_iff = refl; balance = refl })

-- Connect on a socket that is not connected, over any addresses, whatever the system answers for each
-- (a descriptor that it creates is not 0): of the descriptors that were created all are closed but for
-- the one that is connected, which the socket then holds.
pub connect-accounts :
    (c : ClientSocket) (cs : List ClientCalls)
    → AllClients cs
    → c.fd ≡ 0
    → created_by_connect cs ≡ (connect c (some cs)).2 ++ held (connect c (some cs)).0.fd
unfolding connect is_connected
connect-accounts c cs positive free = rw free (elim (Bool-cases (ltb 0 (find_client cs).fd)) [
  | inl found ↦ rw found (find_client-accounts cs positive)
  | inr none_ ↦ rw none_ (find_client-accounts cs positive ∙ rw none_ refl)
])
