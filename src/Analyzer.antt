-- ===== src/Analyzer.antt =====
-- crates/eoip-analyzer: capture files, the parsers of captured packets and the statistics. The output
-- stands outside.
pub mod Error
pub mod Ethernet
pub mod Ip
pub mod Deviation
pub mod Captured
pub mod Decode
pub mod Stats
pub mod Session
pub mod PcapReader
