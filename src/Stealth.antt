-- ===== src/Stealth.antt =====
-- kanrin/kanrin-core/crates/kanrin-stealth.
pub mod Fragment
