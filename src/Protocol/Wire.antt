-- ===== src/Protocol/Wire.antt =====
-- kanrin/kanrin-core/crates/kanrin-protocol/src/wire.rs, a module for each message type.
pub mod Header
pub mod Chunk
pub mod Control
pub mod Proxy
pub mod Frame
mod Tests
