-- ===== src/Protocol/Continuity.antt =====
-- crates/kanrin-protocol/src/continuity.rs: a reliable, ordered pipe that outlives a connection.
pub mod SendBuffer
pub mod Replay
pub mod ReceiveBuffer
pub mod Carrying
pub mod Link
mod Tests
