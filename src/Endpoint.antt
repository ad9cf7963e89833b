-- ===== src/Endpoint.antt =====
-- How sockets are opened and closed: ffos/ota/src/socket/ServerSocket.cpp, and Connect of
-- ffos/ota/src/socket/ClientSocket.cpp. What the system calls answer for each address is an argument. A
-- descriptor that is not positive is 0, as none of the callers tells these apart.
pub mod Descriptors
mod Tests
use code_snippet.Common.{
  ℕ, List, [], ◌∷◌, ◌++◌, Bool, true, false, ◌&&◌, Option, none, some, ltb, if◌then◌else◌,
}
use code_snippet.Socket.Client.{ClientSocket, is_connected}

-- One address: no socket, a socket that a later call refused, or one that is ready.
pub data Try : Type 0 where
  no_socket : Try
  refuses : ℕ → Try
  opens : ℕ → Try

-- The calls for an address in `ServerSocket::init`, by whether each succeeds.
pub record ServerCalls : Type 0 where
  pub created : Option ℕ
  pub reuse : Bool
  pub no_delay : Bool
  pub keep_alive : Bool
  pub bound : Bool
  pub listening : Bool

unfoldable pub server_try : ServerCalls → Try
server_try c = elim c.created [
  | none ↦ no_socket
  | some fd ↦
      if c.reuse && (c.no_delay && (c.keep_alive && (c.bound && c.listening)))
      then opens fd
      else refuses fd
]

-- The calls for an address in `ClientSocket::Connect`.
pub record ClientCalls : Type 0 where
  pub created : Option ℕ
  pub no_delay : Bool
  pub keep_alive : Bool
  pub connected : Bool

unfoldable pub client_try : ClientCalls → Try
client_try c = elim c.created [
  | none ↦ no_socket
  | some fd ↦ if c.no_delay && (c.keep_alive && c.connected) then opens fd else refuses fd
]

-- Where a loop over the addresses ends, with the descriptors that it closed.
pub record Search : Type 0 where
  pub fd : ℕ
  pub closed : List ℕ

-- The end of a round: `continue`, `close(fd)`, or `break`.
abbrev pub next_search : Try → Search → Search
next_search no_socket rest = rest
next_search (refuses fd) rest = record rest { closed = fd ∷ rest.closed }
next_search (opens fd) rest = record { fd = fd; closed = [] }

-- The loop of `init`, which takes the first address that works.
unfoldable pub find_server : List ServerCalls → Search
unfolding server_try
find_server [] = record { fd = 0; closed = [] }
find_server (c ∷ cs) = next_search (server_try c) (find_server cs)

-- `init`, where `none` is a failure of getaddrinfo.
unfoldable pub init : Option (List ServerCalls) → Search
unfolding find_server
init none = record { fd = 0; closed = [] }
init (some cs) = find_server cs

-- The loop of Connect.
unfoldable pub find_client : List ClientCalls → Search
unfolding client_try
find_client [] = record { fd = 0; closed = [] }
find_client (c ∷ cs) = next_search (client_try c) (find_client cs)

pub data Connected : Type 0 where
  -- the exception for a socket that is connected
  already : Connected
  -- `return 0 - errno`
  no_address : Connected
  -- `return -1`
  refused : Connected
  connects : ℕ → Connected

-- ClientSocket::Connect; `block` only sets a flag of the descriptor.
unfoldable pub connect :
    ClientSocket → Option (List ClientCalls) → ClientSocket × Connected × List ℕ
unfolding is_connected find_client
connect c addresses = if is_connected c then (c, already, []) else elim addresses [
  | none ↦ (c, no_address, [])
  | some cs ↦
      if ltb 0 (find_client cs).fd
      then (
        record c { fd = (find_client cs).fd },
        connects (find_client cs).fd,
        (find_client cs).closed,
      )
      else (c, refused, (find_client cs).closed)
]

pub record ServerSocket : Type 0 where
  pub fd : ℕ
  pub port : ℕ
  pub started : Bool

abbrev pub new_server : ℕ → ServerSocket
new_server port = record { fd = 0; port = port; started = false }

pub data Started : Type 0 where
  -- the exception for a second call
  throws : Started
  -- `return -1`
  fails : Started
  -- `return 0`
  starts : Started

-- The end of Start, after `init`.
abbrev pub starts_with : ServerSocket → Search → ServerSocket × Started × List ℕ
starts_with s found =
    if ltb 0 found.fd
    then (record s { fd = found.fd; started = true }, starts, found.closed)
    else (s, fails, found.closed)

unfoldable pub start : ServerSocket → Option (List ServerCalls) → ServerSocket × Started × List ℕ
unfolding init
start s addresses = if s.started then (s, throws, []) else starts_with s (init addresses)

-- Stop: whether it returns 0, and the descriptor that it closes.
unfoldable pub stop : ServerSocket → ServerSocket × Bool × List ℕ
stop s =
    if ltb 0 s.fd
    then (record s { started = false; fd = 0 }, true, s.fd ∷ [])
    else (record s { started = false }, false, [])

-- AcceptConnection: nothing is the exception, `some none` is NULL. The argument is the result of `accept`.
unfoldable pub accept_connection : ServerSocket → ℕ → Option (Option ClientSocket)
accept_connection s fd =
    if s.started
    then some (if ltb 0 fd then some (record { fd = fd; read_buffer = [] }) else none)
    else none

unfoldable pub get_socket_fd : ServerSocket → Option ℕ
get_socket_fd s = if s.started then some s.fd else none

unfoldable pub get_port : ServerSocket → Option ℕ
get_port s = if s.started then some s.port else none
