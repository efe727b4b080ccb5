-- ===== src/Proto/Pipeline.antt =====
-- crates/eoip-proto/src/lib.rs: validation and parsing in one call.
pub mod RoundTrip
pub mod Safety
use eo_ip_rs.Base.{
  ◌==◌, length, Result, ok, panic, ◌>>=◌, ◌>>◌, slice_from, ℕ, ◌+◌, true, false, List,
}
use eo_ip_rs.Proto.Error.{EoipError}
use eo_ip_rs.Proto.Gre.{decode_eoip_header, validate_eoip_packet}
use eo_ip_rs.Proto.Etherip.{decode_eoipv6_header, validate_eoipv6_packet}
use eo_ip_rs.Proto.UdpShim.{decode_udp_shim, udp_inner_type_eoip, udp_inner_type_eoipv6}

-- Each returns the tunnel id and the offset of the Ethernet frame.
unfoldable pub validate_and_parse_eoip : List ℕ → Result (ℕ × ℕ) EoipError
validate_and_parse_eoip buf = do
  validate_eoip_packet buf (length buf)
  (tunnel_id, payload_len, hdr_len) ← decode_eoip_header buf
  ok (tunnel_id, hdr_len)

unfoldable pub validate_and_parse_eoipv6 : List ℕ → Result (ℕ × ℕ) EoipError
validate_and_parse_eoipv6 buf = do
  validate_eoipv6_packet buf (length buf)
  (tunnel_id, hdr_len) ← decode_eoipv6_header buf
  ok (tunnel_id, hdr_len)

-- The last branch is the source's `unreachable!`.
unfoldable pub validate_and_parse_udp_encap : List ℕ → Result (ℕ × ℕ) EoipError
validate_and_parse_udp_encap buf = do
  (inner_type, shim_len) ← decode_udp_shim buf
  inner ← slice_from buf shim_len
  elim (inner_type == udp_inner_type_eoip) [
    | true ↦ do
      (tunnel_id, inner_offset) ← validate_and_parse_eoip inner
      ok (tunnel_id, shim_len + inner_offset)
    | false ↦ elim (inner_type == udp_inner_type_eoipv6) [
      | true ↦ do
        (tunnel_id, inner_offset) ← validate_and_parse_eoipv6 inner
        ok (tunnel_id, shim_len + inner_offset)
      | false ↦ panic
    ]
  ]
