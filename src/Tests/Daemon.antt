-- ===== src/Tests/Daemon.antt =====
-- The daemon's parts on small concrete states.
use eo_ip_rs.Base.{
  inl, leb, if◌then◌else◌, replicate, Result, ok, err, panic, ℕ, ◌+◌, ◌≤◌, ◌≡◌, refl, ◌≢◌, true,
  none, some, List, [], ◌∷◌, arith,
}
use eo_ip_rs.Proto.Types.Addr.{IpAddr, v4, v6, is_ipv4, is_ipv6}
use eo_ip_rs.Config.{
  TunnelConfig, Config, check_tunnel, default_daemon, default_api, default_logging,
  default_performance, id_exceeds_v6,
}
use eo_ip_rs.Config.Mtu.{auto, resolve_with_ipsec}
use eo_ip_rs.Config.Checked.{IsSound}
use eo_ip_rs.Net.Mtu.{Lookup}
use eo_ip_rs.Net.Pmtud.{
  Attempt, replied, too_big, timed_out, PmtudError, probe_path_mtu, do_pmtud, search,
}
use eo_ip_rs.Net.Pmtud.Search.{search_ends}
use eo_ip_rs.Net.Pmtud.Blocked.{probe_path_mtu_silent, do_pmtud_ignores_ipsec}
use eo_ip_rs.Tunnel.Handle.{TunnelHandle}
use eo_ip_rs.Packet.Buffer.{PacketBuf}

-- Two tunnels to one peer, and one over IPv6.
abbrev pub peer : IpAddr
peer = v4 10 0 0 2

abbrev pub tunnel : ℕ → TunnelConfig
tunnel tid = record {
  tunnel_id = tid;
  local = v4 10 0 0 1;
  remote = peer;
  iface_name = none;
  mtu = auto;
  enabled = true;
  keepalive_interval_secs = 10;
  keepalive_timeout_secs = 100;
  clamp_tcp_mss = true;
  ipsec_secret = none;
}

abbrev wide_v6 : TunnelConfig
wide_v6 = record (tunnel 5000) { local = v6 (replicate 16 1); remote = v6 (replicate 16 2) }

abbrev pub config : Config
config = record {
  daemon = default_daemon;
  api = default_api;
  logging = default_logging;
  performance = default_performance;
  tunnels = tunnel 1 ∷ tunnel 2 ∷ [];
}

tunnel-IsSound : (tid : ℕ) → IsSound (tunnel tid)
tunnel-IsSound tid = record {
  same_family = unfold is_ipv4 in refl;
  small_v6_id = λ six. unfold is_ipv6 in cc;
  short_name = λ name e. cc;
}

wide_v6_refused : check_tunnel 1 wide_v6 ≡ err (id_exceeds_v6 1 5000)
unfolding check_tunnel is_ipv6
wide_v6_refused = refl

-- A path of 1400 bytes, one that answers nothing, and a lookup.
abbrev path_1400 : ℕ → ℕ → Attempt
path_1400 size try = if leb (size + 28) 1400 then replied else too_big

abbrev ethernet : Lookup
ethernet remote = ok 1500

search_ends_example :
    (r : ℕ × ℕ) × (search (λ m. leb m 1400) 10 576 1500 576 0 ≡ some r)
    × (576 ≤ r.0)
    × (r.0 ≤ 1500)
    × (r.1 ≤ 10)
search_ends_example = search_ends (λ m. leb m 1400)

silent : ℕ → ℕ → Attempt
silent total try = timed_out

probe_path_mtu_silent_example : probe_path_mtu (ok tt) silent peer ≡ ok 1500
unfolding silent
probe_path_mtu_silent_example = probe_path_mtu_silent silent 10 0 0 2 (λ size try. inl refl)

setup_fine : ◌≢◌ {A = Result (Unit {0}) PmtudError} (ok tt) panic
setup_fine e = cc

-- A handle whose channel holds up to four buffers.
abbrev pub handle : ℕ → TunnelHandle (List PacketBuf × ℕ)
handle tid = record {
  config = tunnel tid;
  state = 2;
  stats = record {
    tx_packets = 0;
    tx_bytes = 0;
    rx_packets = 0;
    rx_bytes = 0;
    tx_errors = 0;
    rx_errors = 0;
    last_rx_timestamp = 0;
    last_tx_timestamp = 0;
  };
  actual_mtu = 0;
  rx_channel = some ([], 4);
}

do_pmtud_ignores_ipsec_example :
    (do_pmtud ethernet peer (ok 1500) (handle 1)).actual_mtu
    ≡ resolve_with_ipsec ethernet auto peer true + 38
do_pmtud_ignores_ipsec_example =
    do_pmtud_ignores_ipsec ethernet peer 1500 (handle 1) refl (omega arith)
