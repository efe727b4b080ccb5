-- ===== src/Daemon.antt =====
-- crates/eoip-rs/src/main.rs: the start of the daemon.
pub mod Startup
pub mod Run
pub mod Windows
