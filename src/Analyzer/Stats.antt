-- ===== src/Analyzer/Stats.antt =====
-- crates/eoip-analyzer/src/stats.rs. A `HashSet` is a list without repetitions; a time is its
-- nanoseconds. The counters are `usize` and do not wrap here: a capture file is too short for that.
pub mod Tally
use eo_ip_rs.Base.{
  ltb, if◌then◌else◌, length, Result, ok, err, panic, map_get, map_insert, ℕ, ◌+◌, ◌-◌, Option,
  none, some, List, [], ◌∷◌,
}
use mathlib.Core.Option
use eo_ip_rs.Proto.Types.Addr.{IpAddr, IpAddr-discrete}
use eo_ip_rs.Analyzer.Error.{AnalyzerError}
use eo_ip_rs.Analyzer.Ethernet.{EthernetFrame}
use eo_ip_rs.Analyzer.Ip.{src, dst}
use eo_ip_rs.Analyzer.Decode.{
  EoipVariant, eoip, eoip_v6, udp_encap, standard_gre, non_eoip_udp, skipped, DecodedPacket,
}

pub record TunnelSessionStats : Type 0 where
  pub packet_count : ℕ
  pub keepalive_count : ℕ
  pub byte_count : ℕ
  pub peers : List IpAddr
  pub first_seen : ℕ
  pub last_seen : ℕ
  pub inner_ethertypes : List (ℕ × ℕ)

pub record SessionStats : Type 0 where
  pub total_packets : ℕ
  pub eoip_packets : ℕ
  pub eoipv6_packets : ℕ
  pub udp_encap_packets : ℕ
  pub standard_gre_packets : ℕ
  pub skipped_packets : ℕ
  pub error_packets : ℕ
  pub keepalive_packets : ℕ
  pub deviation_count : ℕ
  pub total_bytes : ℕ
  pub first_timestamp : Option ℕ
  pub last_timestamp : Option ℕ
  pub tunnels : List (ℕ × TunnelSessionStats)

unfoldable pub new : SessionStats
new = record {
  total_packets = 0;
  eoip_packets = 0;
  eoipv6_packets = 0;
  udp_encap_packets = 0;
  standard_gre_packets = 0;
  skipped_packets = 0;
  error_packets = 0;
  keepalive_packets = 0;
  deviation_count = 0;
  total_bytes = 0;
  first_timestamp = none;
  last_timestamp = none;
  tunnels = [];
}

-- `HashSet::insert`
add_peer : IpAddr → List IpAddr → List IpAddr
add_peer ip [] = ip ∷ []
add_peer ip (p ∷ peers) =
    let rest = add_peer ip peers in
    elim (IpAddr-discrete ip p) [ yes same ↦ p ∷ peers | no other ↦ p ∷ rest ]

or_else : {A : Type 0} → A → Option A → A
or_else a none = a
or_else a (some b) = b

-- `entry(ethertype).or_insert(0) += 1`
count_ethertype : Option EthernetFrame → List (ℕ × ℕ) → List (ℕ × ℕ)
unfolding or_else
count_ethertype none m = m
count_ethertype (some eth) m = map_insert eth.ethertype (or_else 0 (map_get eth.ethertype m) + 1) m

new_tunnel : ℕ → TunnelSessionStats
new_tunnel timestamp = record {
  packet_count = 0;
  keepalive_count = 0;
  byte_count = 0;
  peers = [];
  first_seen = timestamp;
  last_seen = timestamp;
  inner_ethertypes = [];
}

seen : DecodedPacket → TunnelSessionStats → TunnelSessionStats
unfolding add_peer count_ethertype src dst
seen pkt t = record {
  packet_count = t.packet_count + 1;
  keepalive_count = (if pkt.is_keepalive then t.keepalive_count + 1 else t.keepalive_count);
  byte_count = t.byte_count + length pkt.raw_bytes;
  peers = add_peer (dst pkt.ip_header) (add_peer (src pkt.ip_header) t.peers);
  first_seen = t.first_seen;
  last_seen = pkt.timestamp;
  inner_ethertypes = count_ethertype pkt.inner_ethernet t.inner_ethertypes;
}

-- The end of `record`, for the variants that carry a tunnel: its condition holds for each of them.
record_tunnel : DecodedPacket → SessionStats → SessionStats
unfolding seen or_else new_tunnel
record_tunnel pkt s = record s {
  keepalive_packets = (if pkt.is_keepalive then s.keepalive_packets + 1 else s.keepalive_packets);
  tunnels =
      map_insert pkt.tunnel_id
        (seen pkt (or_else (new_tunnel pkt.timestamp) (map_get pkt.tunnel_id s.tunnels))) s.tunnels;
}

-- By the variant; the two that return early do so.
classify : EoipVariant → DecodedPacket → SessionStats → SessionStats
unfolding record_tunnel
classify (eoip magic payload_len tunnel_id) pkt s =
    record_tunnel pkt (record s { eoip_packets = s.eoip_packets + 1 })
classify (eoip_v6 version_nibble tunnel_id) pkt s =
    record_tunnel pkt (record s { eoipv6_packets = s.eoipv6_packets + 1 })
classify (udp_encap from to inner_type reserved_byte inner) pkt s =
    record_tunnel pkt (record s { udp_encap_packets = s.udp_encap_packets + 1 })
classify (standard_gre first_bytes) pkt s = record s {
  standard_gre_packets = s.standard_gre_packets + 1;
}
classify (non_eoip_udp from to) pkt s = record s { skipped_packets = s.skipped_packets + 1 }
classify (skipped protocol) pkt s = record s { skipped_packets = s.skipped_packets + 1 }

-- `record`; its argument has no third case in the source, a panic ends the analyzer before.
unfoldable pub record_result : Result DecodedPacket AnalyzerError → SessionStats → SessionStats
unfolding classify or_else
record_result (err e) s = record s {
  total_packets = s.total_packets + 1;
  error_packets = s.error_packets + 1;
}
record_result panic s = s
record_result (ok pkt) s = classify pkt.variant pkt (record s {
  total_packets = s.total_packets + 1;
  total_bytes = s.total_bytes + length pkt.raw_bytes;
  deviation_count = s.deviation_count + length pkt.deviations;
  first_timestamp = some (or_else pkt.timestamp s.first_timestamp);
  last_timestamp = some pkt.timestamp;
})

unfoldable pub record_skipped : SessionStats → SessionStats
record_skipped s = record s {
  total_packets = s.total_packets + 1;
  skipped_packets = s.skipped_packets + 1;
}

unfoldable pub record_error : SessionStats → SessionStats
record_error s = record s {
  total_packets = s.total_packets + 1;
  error_packets = s.error_packets + 1;
}

between : Option ℕ → Option ℕ → Option ℕ
between none last = none
between (some first) none = none
between (some first) (some last) = if ltb first last then some (last - first) else none

unfoldable pub duration : SessionStats → Option ℕ
unfolding between
duration s = between s.first_timestamp s.last_timestamp
