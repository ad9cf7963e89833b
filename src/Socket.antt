-- ===== src/Socket.antt =====
-- ffos/ota/src/socket: the framed stream of a client, and the server's sessions.
mod Tests
pub mod Framing
pub mod Nul
pub mod Rounds
pub mod Stream
pub mod Client
pub mod Broken
pub mod Sending
