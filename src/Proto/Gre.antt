-- ===== src/Proto/Gre.antt =====
-- crates/eoip-proto/src/gre.rs. A `&mut [u8]` argument is the buffer before the call, and the
-- result on success is the buffer after it; an error leaves the buffer as it was.
pub mod Codec
pub mod Outcomes
pub mod Validate
use eo_ip_rs.Base.{
  ltb, ◌==◌, length, Result, ok, err, ◌>>=◌, ◌>>◌, reject_if, index, slice, copy_at, slice_eq,
  from_be_bytes, from_le_bytes, to_be_bytes, to_le_bytes, ℕ, ◌+◌, ◌-◌, true, false, ◌&&◌, not, List,
  [], ◌∷◌,
}
use eo_ip_rs.Proto.Error.{
  EoipError, packet_too_short, invalid_magic_bytes, payload_too_small, payload_too_large,
}

abbrev pub eoip_magic : List ℕ
eoip_magic = 0x20 ∷ 0x01 ∷ 0x64 ∷ 0x00 ∷ []

abbrev pub eoip_header_len : ℕ
eoip_header_len = 8

abbrev pub min_ethernet_frame : ℕ
min_ethernet_frame = 14

unfoldable pub encode_eoip_header : ℕ → ℕ → List ℕ → Result (List ℕ) EoipError
encode_eoip_header tunnel_id payload_len buf = do
  reject_if (ltb (length buf) eoip_header_len) (packet_too_short (length buf) eoip_header_len)
  let buf = copy_at 0 eoip_magic buf
  let buf = copy_at 4 (to_be_bytes payload_len) buf
  let buf = copy_at 6 (to_le_bytes tunnel_id) buf
  ok buf

-- `[buf[0], buf[1], buf[2], buf[3]]`
wrong_magic : List ℕ → Result (ℕ × ℕ × ℕ) EoipError
wrong_magic buf = do
  a ← index buf 0
  b ← index buf 1
  c ← index buf 2
  d ← index buf 3
  Result.err (invalid_magic_bytes eoip_magic (a ∷ b ∷ c ∷ d ∷ []))

-- The result is the tunnel id, the payload length and the header length.
unfoldable pub decode_eoip_header : List ℕ → Result (ℕ × ℕ × ℕ) EoipError
unfolding wrong_magic
decode_eoip_header buf = do
  reject_if (ltb (length buf) eoip_header_len) (packet_too_short (length buf) eoip_header_len)
  magic ← slice buf 0 4
  elim (slice_eq magic eoip_magic) [
    | false ↦ wrong_magic buf
    | true ↦ do
      p_hi ← index buf 4
      p_lo ← index buf 5
      let payload_len = from_be_bytes p_hi p_lo
      t_lo ← index buf 6
      t_hi ← index buf 7
      let tunnel_id = from_le_bytes t_lo t_hi
      ok (tunnel_id, payload_len, eoip_header_len)
  ]

unfoldable pub validate_eoip_packet : List ℕ → ℕ → Result (Unit {0}) EoipError
validate_eoip_packet buf ip_payload_len = do
  (tunnel_id, payload_len, hdr_len) ← decode_eoip_header buf
  reject_if (not (payload_len == 0) && ltb payload_len min_ethernet_frame)
      (payload_too_small payload_len min_ethernet_frame)
  reject_if (ltb ip_payload_len eoip_header_len) (packet_too_short ip_payload_len eoip_header_len)
  let max_payload = ip_payload_len - eoip_header_len
  reject_if (ltb max_payload payload_len) (payload_too_large payload_len max_payload)
  let total_needed = eoip_header_len + payload_len
  reject_if (ltb (length buf) total_needed) (packet_too_short (length buf) total_needed)
  ok tt
