-- ===== src/Analyzer/Stats/Tally.antt =====
-- That the analyzer's counters tally, crates/eoip-analyzer/src/stats.rs.
use eo_ip_rs.Base.{Result, ok, err, panic, ◌+◌, ◌≤◌, ◌≡◌, refl, ◌≢◌, arith}
use eo_ip_rs.Analyzer.Error.{AnalyzerError}
use eo_ip_rs.Analyzer.Decode.{
  EoipVariant, eoip, eoip_v6, udp_encap, standard_gre, non_eoip_udp, skipped, DecodedPacket,
}
use eo_ip_rs.Analyzer.Stats
use eo_ip_rs.Analyzer.Stats.{
  SessionStats, record_tunnel, classify, record_result, record_skipped, record_error,
}

-- Every packet is counted in one class, and the keepalives are EoIP packets.
pub record IsTally (s : SessionStats) : Type 0 where
  pub classes :
      s.total_packets
      ≡ s.eoip_packets
        + (s.eoipv6_packets
            + (s.udp_encap_packets
                + (s.standard_gre_packets + (s.skipped_packets + s.error_packets))))
  pub keepalives : s.keepalive_packets ≤ s.eoip_packets + (s.eoipv6_packets + s.udp_encap_packets)

pub new-IsTally : IsTally Stats.new
unfolding Stats.new
new-IsTally = record { classes = refl; keepalives = omega arith }

pub record_skipped-IsTally : (s : SessionStats) → IsTally s → IsTally (record_skipped s)
unfolding record_skipped
record_skipped-IsTally s h =
    let c = h.classes in let k = h.keepalives in record { classes = omega arith; keepalives = k }

pub record_error-IsTally : (s : SessionStats) → IsTally s → IsTally (record_error s)
unfolding record_error
record_error-IsTally s h =
    let c = h.classes in let k = h.keepalives in record { classes = omega arith; keepalives = k }

-- The packet is counted in the total and not yet in its class.
classify-IsTally :
    (x : EoipVariant) (pkt : DecodedPacket) (s t : SessionStats)
    → IsTally s
    → t.total_packets ≡ s.total_packets + 1
    → t.eoip_packets ≡ s.eoip_packets
    → t.eoipv6_packets ≡ s.eoipv6_packets
    → t.udp_encap_packets ≡ s.udp_encap_packets
    → t.standard_gre_packets ≡ s.standard_gre_packets
    → t.skipped_packets ≡ s.skipped_packets
    → t.error_packets ≡ s.error_packets
    → t.keepalive_packets ≡ s.keepalive_packets
    → IsTally (classify x pkt t)
unfolding classify record_tunnel
classify-IsTally (eoip a b c) pkt s t h e1 e2 e3 e4 e5 e6 e7 e8 =
    let c = h.classes in
    let k = h.keepalives in record { classes = omega arith; keepalives = ground arith }
classify-IsTally (eoip_v6 a b) pkt s t h e1 e2 e3 e4 e5 e6 e7 e8 =
    let c = h.classes in
    let k = h.keepalives in record { classes = omega arith; keepalives = ground arith }
classify-IsTally (udp_encap a b c d x) pkt s t h e1 e2 e3 e4 e5 e6 e7 e8 =
    let c = h.classes in
    let k = h.keepalives in record { classes = omega arith; keepalives = ground arith }
classify-IsTally (standard_gre a) pkt s t h e1 e2 e3 e4 e5 e6 e7 e8 =
    let c = h.classes in
    let k = h.keepalives in record { classes = omega arith; keepalives = omega arith }
classify-IsTally (non_eoip_udp a b) pkt s t h e1 e2 e3 e4 e5 e6 e7 e8 =
    let c = h.classes in
    let k = h.keepalives in record { classes = omega arith; keepalives = omega arith }
classify-IsTally (skipped a) pkt s t h e1 e2 e3 e4 e5 e6 e7 e8 =
    let c = h.classes in
    let k = h.keepalives in record { classes = omega arith; keepalives = omega arith }

pub record_result-IsTally :
    (r : Result DecodedPacket AnalyzerError) (s : SessionStats)
    → IsTally s
    → IsTally (record_result r s)
unfolding record_result
record_result-IsTally (err e) s h =
    let c = h.classes in let k = h.keepalives in record { classes = omega arith; keepalives = k }
record_result-IsTally panic s h = h
record_result-IsTally (ok pkt) s h =
    classify-IsTally pkt.variant pkt s _ h refl refl refl refl refl refl refl refl

classify-total :
    (x : EoipVariant) (pkt : DecodedPacket) (t : SessionStats)
    → (classify x pkt t).total_packets ≡ t.total_packets
unfolding classify record_tunnel
classify-total (eoip a b c) pkt t = refl
classify-total (eoip_v6 a b) pkt t = refl
classify-total (udp_encap a b c d x) pkt t = refl
classify-total (standard_gre a) pkt t = refl
classify-total (non_eoip_udp a b) pkt t = refl
classify-total (skipped a) pkt t = refl

-- A result that is recorded counts for one.
pub record_result-total :
    (r : Result DecodedPacket AnalyzerError) (s : SessionStats)
    → r ≢ panic
    → (record_result r s).total_packets ≡ s.total_packets + 1
unfolding record_result
record_result-total (err e) s fine = refl
record_result-total panic s fine = absurd (fine refl)
record_result-total (ok pkt) s fine = classify-total pkt.variant pkt _
