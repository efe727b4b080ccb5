-- ===== src/Proto.antt =====
-- crates/eoip-proto: the header codecs, their validation, and the shared types.
pub mod Error
pub mod Types
pub mod TunnelId
pub mod Gre
pub mod Etherip
pub mod UdpShim
pub mod Pipeline
pub mod Wire
