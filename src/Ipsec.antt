-- ===== src/Ipsec.antt =====
-- crates/eoip-rs/src/ipsec.
pub mod Config
pub mod Manager
pub mod Vici
