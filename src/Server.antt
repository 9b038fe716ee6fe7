-- ===== src/Server.antt =====
-- kanrin/kanrin-core/crates/kanrin-server: what a server does with a connection and a session.
pub mod Http
pub mod FrontDoor
pub mod Registry
pub mod Addresses
