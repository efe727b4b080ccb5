-- ===== src/Proto/Etherip.antt =====
-- crates/eoip-proto/src/etherip.rs, with buffers as in Gre.antt. A shift to the left within a width
-- is a product cut to that width, a shift to the right a quotient.
pub mod Codec
pub mod Validate
use eo_ip_rs.Base.{
  ltb, ◌==◌, length, Result, ok, ◌>>=◌, ◌>>◌, reject_if, index, copy_at, as_u8, as_u16, Text, codes,
  show_nat, ℕ, ◌+◌, ◌*◌, ◌/◌, bit_and, bit_or, not, List, [], ◌∷◌, ◌++◌,
}
use eo_ip_rs.Proto.Error.{
  EoipError, packet_too_short, tunnel_id_out_of_range, invalid_version, invalid_ether_ip_header,
}

abbrev pub etherip_version : ℕ
etherip_version = 3

abbrev pub etherip_header_len : ℕ
etherip_header_len = 2

abbrev pub max_eoipv6_tunnel_id : ℕ
max_eoipv6_tunnel_id = 4095

abbrev pub min_ethernet_frame : ℕ
min_ethernet_frame = 14

unfoldable pub encode_eoipv6_header : ℕ → List ℕ → Result (List ℕ) EoipError
encode_eoipv6_header tunnel_id buf = do
  reject_if (ltb max_eoipv6_tunnel_id tunnel_id)
      (tunnel_id_out_of_range tunnel_id max_eoipv6_tunnel_id)
  reject_if (ltb (length buf) etherip_header_len) (packet_too_short (length buf) etherip_header_len)
  let tid = bit_and tunnel_id 0x0FFF
  let tid_hi = as_u8 (tid / 256)
  let tid_lo = as_u8 (bit_and tid 0xFF)
  let buf = copy_at 0 (bit_or (as_u8 (tid_hi * 16)) etherip_version ∷ []) buf
  let buf = copy_at 1 (tid_lo ∷ []) buf
  ok buf

-- The result is the tunnel id and the header length.
unfoldable pub decode_eoipv6_header : List ℕ → Result (ℕ × ℕ) EoipError
decode_eoipv6_header buf = do
  reject_if (ltb (length buf) etherip_header_len) (packet_too_short (length buf) etherip_header_len)
  b0 ← index buf 0
  let version = bit_and b0 0x0F
  reject_if (not (version == etherip_version)) (invalid_version etherip_version version)
  let tid_hi = b0 / 16
  tid_lo ← index buf 1
  let tunnel_id = bit_or (as_u16 (tid_hi * 256)) tid_lo
  ok (tunnel_id, etherip_header_len)

-- `format!("buffer length {} does not match IPv6 payload length {}", …)`
length_mismatch : ℕ → ℕ → Text
length_mismatch got expected =
    codes "buffer length "
    ++ (show_nat got ++ (codes " does not match IPv6 payload length " ++ show_nat expected))

unfoldable pub validate_eoipv6_packet : List ℕ → ℕ → Result (Unit {0}) EoipError
unfolding length_mismatch
validate_eoipv6_packet buf ipv6_payload_len = do
  let min_len = etherip_header_len + min_ethernet_frame
  reject_if (ltb (length buf) min_len) (packet_too_short (length buf) min_len)
  b0 ← index buf 0
  let version = bit_and b0 0x0F
  reject_if (not (version == etherip_version)) (invalid_version etherip_version version)
  reject_if (not (length buf == ipv6_payload_len))
      (invalid_ether_ip_header (length_mismatch (length buf) ipv6_payload_len))
  ok tt
