-- ===== src/Protocol.antt =====
-- The crate kanrin-protocol: the wire format and the session continuity layer that every client
-- and server shares.
pub mod Error
pub mod Crypto
pub mod Wire
pub mod Continuity
pub mod Session
pub mod Resume
pub mod Handshake
