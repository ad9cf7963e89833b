-- ===== src/Sessions.antt =====
-- ffos/ota/src/socket/ServerDaemon.cpp: the map of the sessions, by descriptor. A std::map is the list
-- of its pairs in the order of the keys. The key of a session stays when the socket is closed.
pub mod Map
pub mod Removal
use code_snippet.Common.{
  ℕ, List, [], ◌∷◌, ◌++◌, Bool, true, false, not, ◌||◌, Option, none, some, ltb, ◌==◌,
  if◌then◌else◌,
}
use code_snippet.Socket.Client.{ClientSocket, is_connected, close}

abbrev pub Sessions : Type 0
Sessions = List (ℕ × ClientSocket)

-- std::map::insert changes nothing if the key is there.
unfoldable pub insert : ℕ → ClientSocket → Sessions → Sessions
insert fd c [] = (fd, c) ∷ []
insert fd c ((k, d) ∷ ss) =
    let rest = insert fd c ss in
    if fd == k then (k, d) ∷ ss else if ltb fd k then (fd, c) ∷ ((k, d) ∷ ss) else (k, d) ∷ rest

-- addSession
unfoldable pub add_session : Sessions → ClientSocket → Sessions
unfolding insert
add_session ss c = insert c.fd c ss

unfoldable pub lookup : ℕ → Sessions → Option ClientSocket
lookup fd [] = none
lookup fd ((k, c) ∷ ss) = if fd == k then some c else lookup fd ss

-- findSessionByFd
unfoldable pub find_session_by_fd : ℕ → Sessions → Option ClientSocket
unfolding lookup
find_session_by_fd fd ss = if fd == 0 then none else lookup fd ss

-- cleanSessions: what stays, and for each session that goes the socket of onCloseConnection and the
-- descriptor that Close closes.
unfoldable pub clean_sessions : Bool → Sessions → Sessions × List (ClientSocket × Option ℕ)
unfolding is_connected close
clean_sessions force [] = ([], [])
clean_sessions force ((k, c) ∷ ss) =
    let (rest, gone) = clean_sessions force ss in
    if force || not (is_connected c) then (rest, (c, (close c).1) ∷ gone) else ((k, c) ∷ rest, gone)

-- std::map::erase
unfoldable pub erase : ℕ → Sessions → Sessions
erase fd [] = []
erase fd ((k, c) ∷ ss) = let rest = erase fd ss in if fd == k then ss else (k, c) ∷ rest

-- removeSession: what stays, and the socket of onCloseConnection with the descriptor that Close closes.
unfoldable pub remove_session :
    Option ClientSocket → Sessions → Sessions × List (ClientSocket × Option ℕ)
unfolding erase lookup close
remove_session none ss = (ss, [])
remove_session (some c) ss = elim (lookup c.fd ss) [
  | none ↦ (ss, [])
  | some d ↦ (erase c.fd ss, (c, (close c).1) ∷ [])
]
