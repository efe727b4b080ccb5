-- ===== src/Tunnel.antt =====
-- crates/eoip-rs/src/tunnel: the life of a tunnel, its handle and the registry.
pub mod Lifecycle
pub mod Handle
pub mod Registry
pub mod Manager
