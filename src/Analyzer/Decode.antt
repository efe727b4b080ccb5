-- ===== src/Analyzer/Decode.antt =====
-- crates/eoip-analyzer/src/decode.rs. The list of deviations is passed on and returned; an error drops
-- it. A time is its nanoseconds.
pub mod Traffic
use eo_ip_rs.Base.{
  ltb, leb, ◌==◌, if◌then◌else◌, length, Result, ok, err, panic, ◌>>=◌, ◌>>◌, reject_if, map_err,
  index, slice_to, slice_from, slice, slice_eq, from_be_bytes, Text, codes, ℕ, min, bit_and, Bool,
  true, false, ◌&&◌, not, Option, none, some, List, [], ◌∷◌, ◌++◌,
}
use eo_ip_rs.Proto.Types.Addr.{IpAddr}
use eo_ip_rs.Proto.Error.{EoipError}
use eo_ip_rs.Proto.Error.Shown.{show_error}
use eo_ip_rs.Proto.Gre.{eoip_magic, eoip_header_len, decode_eoip_header}
use eo_ip_rs.Proto.Etherip.{decode_eoipv6_header}
use eo_ip_rs.Proto.UdpShim.{udp_inner_type_eoip, udp_inner_type_eoipv6, decode_udp_shim}
use eo_ip_rs.Analyzer.Error.{AnalyzerError, packet_too_short, decode}
use eo_ip_rs.Analyzer.Ethernet.{EthernetFrame, parse_ethernet_frame}
use eo_ip_rs.Analyzer.Ip.{IpHeader, protocol, proto_gre, proto_etherip, proto_udp, parse_ip_header}
use eo_ip_rs.Analyzer.Deviation.{
  Deviation, check_eoip_deviations, check_eoipv6_deviations, check_udp_shim_deviations,
  flag_standard_gre,
}

pub data EoipVariant : Type 0 where
  eoip : (magic : List ℕ) (payload_len tunnel_id : ℕ) → EoipVariant
  eoip_v6 : (version_nibble tunnel_id : ℕ) → EoipVariant
  udp_encap :
      (udp_src_port udp_dst_port inner_type reserved_byte : ℕ) (inner : EoipVariant) → EoipVariant
  standard_gre : (first_bytes : List ℕ) → EoipVariant
  non_eoip_udp : (udp_src_port udp_dst_port : ℕ) → EoipVariant
  skipped : (protocol : ℕ) → EoipVariant

pub record DecodedPacket : Type 0 where
  pub packet_number : ℕ
  pub timestamp : ℕ
  pub ip_header : IpHeader
  pub variant : EoipVariant
  pub tunnel_id : ℕ
  pub is_keepalive : Bool
  pub inner_ethernet : Option EthernetFrame
  pub deviations : List Deviation
  pub raw_bytes : List ℕ

pub record RawPacket : Type 0 where
  pub timestamp : ℕ
  pub ip_data : List ℕ
  pub full_data : List ℕ

-- The variant, the tunnel's id, whether it is a keepalive, the inner frame, and the deviations.
abbrev pub Decoded : Type 0
Decoded = (EoipVariant × ℕ × Bool × Option EthernetFrame) × List Deviation

-- `.ok()`
ok_or_none : Result EthernetFrame AnalyzerError → Result (Option EthernetFrame) AnalyzerError
ok_or_none (ok f) = ok (some f)
ok_or_none (err e) = ok none
ok_or_none panic = panic

inner_frame : Bool → List ℕ → Result (Option EthernetFrame) AnalyzerError
unfolding ok_or_none parse_ethernet_frame
inner_frame is_keepalive eth_data =
    if not is_keepalive && leb 14 (length eth_data)
    then ok_or_none (parse_ethernet_frame eth_data)
    else ok none

module _ (show_ip : IpAddr → Text) where
  decode_error : EoipError → AnalyzerError
  unfolding show_error
  decode_error e = decode (show_error show_ip e)

  -- The payload has the magic bytes.
  with_magic : List ℕ → List ℕ → List Deviation → Result Decoded AnalyzerError
  unfolding decode_error decode_eoip_header inner_frame check_eoip_deviations
  with_magic magic payload deviations = do
    reject_if (ltb (length payload) eoip_header_len)
        (packet_too_short (codes "EoIP header incomplete"))
    (tunnel_id, payload_len, hdr_len) ← map_err decode_error (decode_eoip_header payload)
    eth_data ← slice_from payload eoip_header_len
    let is_keepalive = payload_len == 0
    let deviations = deviations ++ check_eoip_deviations magic payload_len (length eth_data)
    inner_ethernet ← inner_frame is_keepalive eth_data
    ok ((eoip magic payload_len tunnel_id, tunnel_id, is_keepalive, inner_ethernet), deviations)

  unfoldable pub decode_eoip : List ℕ → List Deviation → Result Decoded AnalyzerError
  unfolding with_magic flag_standard_gre
  decode_eoip payload deviations = do
    reject_if (ltb (length payload) 4) (packet_too_short (codes "GRE payload too short"))
    magic ← slice payload 0 4
    elim (slice_eq magic eoip_magic) [
      | false ↦ do
        first ← slice_to payload (min 4 (length payload))
        ok ((standard_gre magic, 0, false, none), deviations ++ flag_standard_gre first ∷ [])
      | true ↦ with_magic magic payload deviations
    ]

  unfoldable pub decode_eoipv6 : List ℕ → List Deviation → Result Decoded AnalyzerError
  unfolding decode_error decode_eoipv6_header inner_frame check_eoipv6_deviations
  decode_eoipv6 payload deviations = do
    reject_if (ltb (length payload) 2) (packet_too_short (codes "EtherIP payload too short"))
    b0 ← index payload 0
    let version_nibble = bit_and b0 0x0F
    let deviations = deviations ++ check_eoipv6_deviations version_nibble
    (tunnel_id, hdr_len) ← map_err decode_error (decode_eoipv6_header payload)
    eth_data ← slice_from payload hdr_len
    let is_keepalive = length eth_data == 0
    inner_ethernet ← inner_frame is_keepalive eth_data
    ok ((eoip_v6 version_nibble tunnel_id, tunnel_id, is_keepalive, inner_ethernet), deviations)

  -- `unreachable!` panics.
  by_inner_type : ℕ → List ℕ → List Deviation → Result Decoded AnalyzerError
  unfolding decode_eoip decode_eoipv6
  by_inner_type inner_type inner_data deviations =
      if inner_type == udp_inner_type_eoip
      then decode_eoip inner_data deviations
      else if inner_type == udp_inner_type_eoipv6
      then decode_eoipv6 inner_data deviations
      else panic

  -- What the shim's decoder answered.
  by_shim :
      (src_port dst_port : ℕ) (udp_payload : List ℕ)
      → List Deviation
      → Result (ℕ × ℕ) EoipError
      → Result Decoded AnalyzerError
  unfolding by_inner_type check_udp_shim_deviations
  by_shim src_port dst_port udp_payload deviations panic = panic
  by_shim src_port dst_port udp_payload deviations (err e) =
      ok ((non_eoip_udp src_port dst_port, 0, false, none), deviations)
  by_shim src_port dst_port udp_payload deviations (ok (inner_type, shim_len)) = do
    reserved_byte ← (if leb 4 (length udp_payload) then index udp_payload 3 else ok 0)
    let deviations = deviations ++ check_udp_shim_deviations reserved_byte
    inner_data ← slice_from udp_payload shim_len
    ((inner, tunnel_id, is_keepalive, inner_ethernet), deviations) ←
        by_inner_type inner_type inner_data deviations
    ok (
      (
        udp_encap src_port dst_port inner_type reserved_byte inner,
        tunnel_id,
        is_keepalive,
        inner_ethernet,
      ),
      deviations,
    )

  unfoldable pub decode_udp :
      List ℕ → (expected_port : ℕ) → List Deviation → Result Decoded AnalyzerError
  unfolding by_shim decode_udp_shim
  decode_udp payload expected_port deviations = do
    reject_if (ltb (length payload) 8) (packet_too_short (codes "UDP header too short"))
    a ← index payload 0
    b ← index payload 1
    let src_port = from_be_bytes a b
    c ← index payload 2
    e ← index payload 3
    let dst_port = from_be_bytes c e
    udp_payload ← slice_from payload 8
    elim (not (src_port == expected_port) && not (dst_port == expected_port)) [
      | true ↦ ok ((non_eoip_udp src_port dst_port, 0, false, none), deviations)
      | false ↦ by_shim src_port dst_port udp_payload deviations (decode_udp_shim udp_payload)
    ]

  by_protocol : ℕ → List ℕ → (udp_port : ℕ) → Result Decoded AnalyzerError
  unfolding decode_udp decode_eoip decode_eoipv6
  by_protocol proto ip_payload udp_port =
      if proto == proto_gre
      then decode_eoip ip_payload []
      else if proto == proto_etherip
      then decode_eoipv6 ip_payload []
      else if proto == proto_udp
      then decode_udp ip_payload udp_port []
      else ok ((skipped proto, 0, false, none), [])

  unfoldable pub decode_packet :
      (packet_number : ℕ) → RawPacket → (udp_port : ℕ) → Result DecodedPacket AnalyzerError
  unfolding by_protocol parse_ip_header protocol
  decode_packet packet_number raw udp_port = do
    (ip_header, ip_payload) ← parse_ip_header raw.ip_data
    ((variant, tunnel_id, is_keepalive, inner_ethernet), deviations) ←
        by_protocol (protocol ip_header) ip_payload udp_port
    ok record {
      packet_number = packet_number;
      timestamp = raw.timestamp;
      ip_header = ip_header;
      variant = variant;
      tunnel_id = tunnel_id;
      is_keepalive = is_keepalive;
      inner_ethernet = inner_ethernet;
      deviations = deviations;
      raw_bytes = raw.full_data;
    }
