-- ===== src/Net.antt =====
-- crates/eoip-rs/src/net: the MTU of a path.
pub mod Mtu
pub mod Pmtud
