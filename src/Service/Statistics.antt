-- ===== src/Service/Statistics.antt =====
-- The statistics service, crates/eoip-rs/src/api/stats_svc.rs. The sums wrap as in a release build.
pub mod Totals
use eo_ip_rs.Base.{Result, ok, err, as_u16, add_u64, ℕ, ◌+◌, ◌%◌, Bool, true, false, List, [], ◌∷◌}
use eo_ip_rs.Proto.Types.{DemuxKey}
use eo_ip_rs.Tunnel.Handle.{TunnelHandle, Store}
use eo_ip_rs.Tunnel.Lifecycle.{TunnelState, active, stale, load}
use eo_ip_rs.Tunnel.Registry
use eo_ip_rs.Tunnel.Registry.{DashMap}
use eo_ip_rs.Service.{Status, not_found, not_found_text}

pub record TunnelStats : Type 0 where
  pub tunnel_id : ℕ
  pub tx_packets : ℕ
  pub tx_bytes : ℕ
  pub rx_packets : ℕ
  pub rx_bytes : ℕ
  pub tx_errors : ℕ
  pub rx_errors : ℕ
  pub last_rx_timestamp_ms : ℕ
  pub last_tx_timestamp_ms : ℕ

pub record GlobalStats : Type 0 where
  pub active_tunnels : ℕ
  pub stale_tunnels : ℕ
  pub total_tx_packets : ℕ
  pub total_rx_packets : ℕ
  pub total_tx_bytes : ℕ
  pub total_rx_bytes : ℕ

add_u32 : ℕ → ℕ → ℕ
add_u32 a b = (a + b) % 4294967296

pub is_active : TunnelState → Bool
is_active active = true
is_active other = false

pub is_stale : TunnelState → Bool
is_stale stale = true
is_stale other = false

one_if : Bool → ℕ
one_if true = 1
one_if false = 0

module _ {Sender : Type 0} (d : DashMap DemuxKey ℕ) where
  snapshot : ℕ → TunnelHandle Sender → TunnelStats
  snapshot tid h = record {
    tunnel_id = tid;
    tx_packets = h.stats.tx_packets;
    tx_bytes = h.stats.tx_bytes;
    rx_packets = h.stats.rx_packets;
    rx_bytes = h.stats.rx_bytes;
    tx_errors = h.stats.tx_errors;
    rx_errors = h.stats.rx_errors;
    last_rx_timestamp_ms = h.stats.last_rx_timestamp;
    last_tx_timestamp_ms = h.stats.last_tx_timestamp;
  }

  of_first : ℕ → List (DemuxKey × ℕ) → Store Sender → Result TunnelStats Status
  unfolding snapshot
  of_first tid [] handles = err (not_found (not_found_text tid))
  of_first tid ((key, p) ∷ entries) handles = ok (snapshot tid (handles p))

  unfoldable pub get_stats : (tunnel_id : ℕ) → d.Map → Store Sender → Result TunnelStats Status
  unfolding of_first Registry.find_by_tunnel_id
  get_stats tunnel_id registry handles =
      let tid = as_u16 tunnel_id in of_first tid (Registry.find_by_tunnel_id d tid registry) handles

  counted : TunnelHandle Sender → GlobalStats → GlobalStats
  unfolding load add_u32 is_active is_stale one_if
  counted h g = record {
    active_tunnels = add_u32 g.active_tunnels (one_if (is_active (load h.state)));
    stale_tunnels = add_u32 g.stale_tunnels (one_if (is_stale (load h.state)));
    total_tx_packets = add_u64 g.total_tx_packets h.stats.tx_packets;
    total_rx_packets = add_u64 g.total_rx_packets h.stats.rx_packets;
    total_tx_bytes = add_u64 g.total_tx_bytes h.stats.tx_bytes;
    total_rx_bytes = add_u64 g.total_rx_bytes h.stats.rx_bytes;
  }

  counted_all : List (DemuxKey × ℕ) → Store Sender → GlobalStats → GlobalStats
  unfolding counted
  counted_all [] handles g = g
  counted_all ((key, p) ∷ entries) handles g = counted_all entries handles (counted (handles p) g)

  unfoldable pub get_global_stats : d.Map → Store Sender → GlobalStats
  unfolding counted_all
  get_global_stats registry handles = counted_all (d.entries registry) handles (record {
    active_tunnels = 0;
    stale_tunnels = 0;
    total_tx_packets = 0;
    total_rx_packets = 0;
    total_tx_bytes = 0;
    total_rx_bytes = 0;
  })
