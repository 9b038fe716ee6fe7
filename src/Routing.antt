-- ===== src/Routing.antt =====
-- kanrin/kanrin-core/crates/kanrin-routing.
pub mod Rules
pub mod GeoIp
