-- ===== src/Proto/UdpShim.antt =====
-- crates/eoip-proto/src/udp_shim.rs, with buffers as in Gre.antt.
pub mod Codec
use eo_ip_rs.Base.{
  ltb, ◌==◌, length, Result, ok, err, ◌>>=◌, ◌>>◌, reject_if, index, slice, copy_at, slice_eq, ℕ,
  true, false, ◌&&◌, not, List, [], ◌∷◌,
}
use eo_ip_rs.Proto.Error.{EoipError, packet_too_short, invalid_magic_bytes, invalid_version}

abbrev pub udp_shim_magic : List ℕ
udp_shim_magic = 0x45 ∷ 0x4F ∷ []

abbrev pub udp_shim_header_len : ℕ
udp_shim_header_len = 4

abbrev pub udp_inner_type_eoip : ℕ
udp_inner_type_eoip = 0x04

abbrev pub udp_inner_type_eoipv6 : ℕ
udp_inner_type_eoipv6 = 0x06

unfoldable pub encode_udp_shim : ℕ → List ℕ → Result (List ℕ) EoipError
encode_udp_shim inner_type buf = do
  reject_if (not (inner_type == udp_inner_type_eoip) && not (inner_type == udp_inner_type_eoipv6))
      (invalid_version udp_inner_type_eoip inner_type)
  reject_if (ltb (length buf) udp_shim_header_len)
      (packet_too_short (length buf) udp_shim_header_len)
  let buf = copy_at 0 udp_shim_magic buf
  let buf = copy_at 2 (inner_type ∷ []) buf
  let buf = copy_at 3 (0x00 ∷ []) buf
  ok buf

-- `[buf[0], buf[1], 0, 0]`
wrong_magic : List ℕ → Result (ℕ × ℕ) EoipError
wrong_magic buf = do
  a ← index buf 0
  b ← index buf 1
  err (invalid_magic_bytes udp_shim_magic (a ∷ b ∷ 0 ∷ 0 ∷ []))

-- The result is the inner type and the length of the shim; the reserved byte is not read.
unfoldable pub decode_udp_shim : List ℕ → Result (ℕ × ℕ) EoipError
unfolding wrong_magic
decode_udp_shim buf = do
  reject_if (ltb (length buf) udp_shim_header_len)
      (packet_too_short (length buf) udp_shim_header_len)
  magic ← slice buf 0 2
  elim (slice_eq magic udp_shim_magic) [
    | false ↦ wrong_magic buf
    | true ↦ do
      inner_type ← index buf 2
      reject_if
          (not (inner_type == udp_inner_type_eoip) && not (inner_type == udp_inner_type_eoipv6))
          (invalid_version udp_inner_type_eoip inner_type)
      ok (inner_type, udp_shim_header_len)
  ]
