-- ===== src/Analyzer/Error.antt =====
-- `AnalyzerError` of crates/eoip-analyzer/src/main.rs.
use eo_ip_rs.Base.{Text}

pub data AnalyzerError : Type 0 where
  io pcap_parse packet_too_short unsupported_protocol decode : Text → AnalyzerError
