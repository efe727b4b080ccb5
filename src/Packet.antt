-- ===== src/Packet.antt =====
-- crates/eoip-rs/src/packet: buffers and the receive and transmit paths.
pub mod Buffer
pub mod Pool
pub mod Mmap
pub mod Rx
pub mod Tx
