-- ===== src/Analyzer/Decode/Traffic.antt =====
-- The analyzer on the packets that the daemon writes: crates/eoip-analyzer/src/decode.rs against
-- crates/eoip-proto/src/gre.rs.
use eo_ip_rs.Base.{
  ltb, leb, ◌==◌, Bool-cases, length, Result, ok, err, panic, from_be_bytes, from_le_bytes, Text, ℕ,
  ◌/◌, ◌%◌, ◌≤◌, ◌≡◌, refl, ◌⊎◌, inl, inr, Bool, false, ◌&&◌, not, Option, none, some, List, [],
  ◌++◌, append-nil, arith,
}
use eo_ip_rs.Proto.Types.Addr.{IpAddr}
use eo_ip_rs.Proto.Gre.{eoip_magic}
use eo_ip_rs.Proto.Gre.Codec.{header_bytes}
use eo_ip_rs.Analyzer.Ethernet.{EthernetFrame, parse_ethernet_frame}
use eo_ip_rs.Analyzer.Error.{AnalyzerError}
use eo_ip_rs.Analyzer.Captured.{
  FrameOutcome, parse_ethernet_frame-FrameOutcome, check_eoip_deviations_iff,
}
use eo_ip_rs.Analyzer.Deviation.{Deviation, check_eoip_deviations}
use eo_ip_rs.Analyzer.Decode.{eoip, ok_or_none, inner_frame, with_magic, decode_eoip}

ok_or_none-total :
    (bytes : List ℕ) (r : Result EthernetFrame AnalyzerError)
    → FrameOutcome bytes r
    → (f : Option EthernetFrame) × (ok_or_none r ≡ ok f)
unfolding ok_or_none
ok_or_none-total bytes (ok f) h = (some f, refl)
ok_or_none-total bytes (err e) h = (none, refl)
ok_or_none-total bytes panic h = absurd h

-- Looking for the inner frame never panics.
inner_frame-total :
    (is_keepalive : Bool) (bytes : List ℕ)
    → (f : Option EthernetFrame) × (inner_frame is_keepalive bytes ≡ ok f)
unfolding inner_frame
inner_frame-total is_keepalive bytes =
    elim (Bool-cases (not is_keepalive && leb 14 (length bytes))) [
      | inl long ↦
          let (f, found) =
            ok_or_none-total bytes (parse_ethernet_frame bytes)
              (parse_ethernet_frame-FrameOutcome bytes) in
          (f, rw long found)
      | inr short ↦ (none, rw short refl)
    ]

-- The header that the daemon writes for a frame, with the frame behind it, is decoded as a packet of
-- its tunnel with the frame's length, without a deviation, and as a keepalive exactly if the frame
-- is empty; the frame is empty or has 14 bytes at least.
pub decode_eoip-header_bytes :
    (show_ip : IpAddr → Text) (tunnel_id : ℕ) (frame : List ℕ) (deviations : List Deviation)
    → (length frame ≡ 0) ⊎ (14 ≤ length frame)
    → (f : Option EthernetFrame) × (decode_eoip show_ip
          (header_bytes tunnel_id (length frame) ++ frame)
          deviations
        ≡ ok (
          (eoip eoip_magic (length frame) tunnel_id, tunnel_id, (length frame == 0), f),
          deviations,
        ))
unfolding decode_eoip with_magic
decode_eoip-header_bytes show_ip tunnel_id frame deviations sound =
    let n = length frame in
    let clean : (check_eoip_deviations eoip_magic n n ≡ []) =
      (check_eoip_deviations_iff eoip_magic n n).1
        (refl, elim sound [ inl z ↦ inl z | inr big ↦ inr (big, refl) ]) in
    let (f, found) = inner_frame-total (n == 0) frame in
    let long : (ltb (length (header_bytes tunnel_id n ++ frame)) 4 ≡ false) = ground arith in
    let whole : (ltb (length (header_bytes tunnel_id n ++ frame)) 8 ≡ false) = ground arith in
    let len : (from_be_bytes (n / 256) (n % 256) ≡ n) = omega arith in
    let id : (from_le_bytes (tunnel_id % 256) (tunnel_id / 256) ≡ tunnel_id) = omega arith in
    (f, rw (long, whole, len, id, clean, found, append-nil deviations) refl)
