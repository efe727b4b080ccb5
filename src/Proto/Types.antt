-- ===== src/Proto/Types.antt =====
-- crates/eoip-proto/src/types.rs: the demultiplexing key, the tunnel id and the counters.
-- The atomic counters of `TunnelStats` are plain fields, loaded and stored one at a time by the
-- operations that use them; the two timestamps are milliseconds since the epoch, from 0 on.
pub mod Addr
use native.Mathlib.Decide.{ℕ_discrete}
use eo_ip_rs.Base.{ℕ}
use eo_ip_rs.Proto.Types.Addr.{IpAddr, IpAddr-discrete}

pub record DemuxKey : Type 0 where
  pub tunnel_id : ℕ
  pub peer_addr : IpAddr

pub record TunnelStats : Type 0 where
  pub tx_packets : ℕ
  pub tx_bytes : ℕ
  pub rx_packets : ℕ
  pub rx_bytes : ℕ
  pub tx_errors : ℕ
  pub rx_errors : ℕ
  pub last_rx_timestamp : ℕ
  pub last_tx_timestamp : ℕ

unfoldable pub new_stats : TunnelStats
new_stats = record {
  tx_packets = 0;
  tx_bytes = 0;
  rx_packets = 0;
  rx_bytes = 0;
  tx_errors = 0;
  rx_errors = 0;
  last_rx_timestamp = 0;
  last_tx_timestamp = 0;
}

pub DemuxKey-discrete : Discrete DemuxKey
DemuxKey-discrete = hlevel (ℕ_discrete, IpAddr-discrete)
