-- ===== src/Client.antt =====
-- kanrin/kanrin-core/crates/kanrin-client.
pub mod Switch
pub mod Posture
pub mod Multipath
