-- ===== src/Tun.antt =====
-- kanrin/kanrin-core/crates/kanrin-tun: what the tunnel does with the packets of the device.
pub mod Packet
pub mod Nat
pub mod FakeIp
pub mod Dns
