-- ===== src/Tests/Protocol.antt =====
-- The codecs and parsers of crates/eoip-proto on small packets.
use eo_ip_rs.Base.{
  length, take, drop, All, ok, IsByte, IsU16, ℕ, ◌≡◌, refl, ◌↔◌, List, [], ◌∷◌, ◌++◌, arith,
}
use eo_ip_rs.Proto.Gre.{encode_eoip_header, decode_eoip_header, validate_eoip_packet}
use eo_ip_rs.Proto.Gre.Codec.{decode-encode_eoip_header, encode-decode_eoip_header}
use eo_ip_rs.Proto.Gre.Outcomes.{DecodeOutcome, decode_eoip_header-outcome}
use eo_ip_rs.Proto.Gre.Validate.{IsEoipPacket, validate_eoip_packet_iff}
use eo_ip_rs.Proto.Etherip.{encode_eoipv6_header, decode_eoipv6_header}
use eo_ip_rs.Proto.UdpShim.{encode_udp_shim}
use eo_ip_rs.Proto.Pipeline.{validate_and_parse_udp_encap}
use eo_ip_rs.Proto.Pipeline.Safety.{InBounds, parse_udp_encap_InBounds}

-- A header for tunnel 100 and no payload.
abbrev hundred : List ℕ
hundred = 0x20 ∷ 0x01 ∷ 0x64 ∷ 0x00 ∷ 0 ∷ 0 ∷ 100 ∷ 0 ∷ []

abbrev zeros : List ℕ
zeros = 0 ∷ 0 ∷ 0 ∷ 0 ∷ 0 ∷ 0 ∷ 0 ∷ 0 ∷ 7 ∷ []

abbrev frame : List ℕ
frame = 1 ∷ 2 ∷ 3 ∷ 4 ∷ 5 ∷ 6 ∷ 7 ∷ 8 ∷ 9 ∷ 10 ∷ 11 ∷ 12 ∷ 8 ∷ 0 ∷ []

bytes_hundred : All IsByte hundred
bytes_hundred = omega arith

decoded_hundred : decode_eoip_header hundred ≡ ok (100, 0, 8)
unfolding decode_eoip_header
decoded_hundred = refl

decode-encode_eoip_header_example :
    (out : List ℕ) × (encode_eoip_header 100 500 zeros ≡ ok out)
    × (decode_eoip_header out ≡ ok (100, 500, 8))
    × All IsByte (take 8 out)
    × (drop 8 out ≡ drop 8 zeros)
    × (length out ≡ length zeros)
decode-encode_eoip_header_example =
    decode-encode_eoip_header 100 500 zeros (omega arith) (omega arith) (omega arith)

encode-decode_eoip_header_example :
    IsU16 100 × IsU16 0 × (◌≡◌ {A = ℕ} 8 8) × (encode_eoip_header 100 0 hundred ≡ ok hundred)
encode-decode_eoip_header_example =
    encode-decode_eoip_header hundred 100 0 8 bytes_hundred decoded_hundred

decode_eoip_header-outcome_example : DecodeOutcome hundred (decode_eoip_header hundred)
decode_eoip_header-outcome_example = decode_eoip_header-outcome hundred bytes_hundred

validate_eoip_packet_iff_example :
    (validate_eoip_packet hundred 8 ≡ ok tt)
    ↔ ((tid : ℕ) × (plen : ℕ) × (rest : List ℕ) × IsEoipPacket hundred 8 tid plen rest)
validate_eoip_packet_iff_example = validate_eoip_packet_iff hundred 8 bytes_hundred

-- Tunnel 42 over IPv6.
abbrev small_v6 : List ℕ
small_v6 = 3 ∷ 42 ∷ frame

decoded_small_v6 : decode_eoipv6_header small_v6 ≡ ok (42, 2)
unfolding decode_eoipv6_header
decoded_small_v6 = refl

abbrev shim4 : List ℕ
shim4 = 0x45 ∷ 0x4F ∷ 4 ∷ 0 ∷ []

abbrev shim6 : List ℕ
shim6 = 0x45 ∷ 0x4F ∷ 6 ∷ 0 ∷ []

shim4_made : encode_udp_shim 4 (0 ∷ 0 ∷ 0 ∷ 0 ∷ []) ≡ ok shim4
unfolding encode_udp_shim
shim4_made = refl

shim6_made : encode_udp_shim 6 (0 ∷ 0 ∷ 0 ∷ 0 ∷ []) ≡ ok shim6
unfolding encode_udp_shim
shim6_made = refl

abbrev header4 : List ℕ
header4 = 0x20 ∷ 0x01 ∷ 0x64 ∷ 0x00 ∷ 0 ∷ 14 ∷ 100 ∷ 0 ∷ []

header4_made :
    encode_eoip_header 100 (length frame) (0 ∷ 0 ∷ 0 ∷ 0 ∷ 0 ∷ 0 ∷ 0 ∷ 0 ∷ []) ≡ ok header4
unfolding encode_eoip_header
header4_made = refl

header6_made : encode_eoipv6_header 42 (0 ∷ 0 ∷ []) ≡ ok (3 ∷ 42 ∷ [])
unfolding encode_eoipv6_header
header6_made = refl

parse_udp_encap_InBounds_example :
    InBounds (shim4 ++ hundred) (validate_and_parse_udp_encap (shim4 ++ hundred))
parse_udp_encap_InBounds_example = parse_udp_encap_InBounds (shim4 ++ hundred) (omega arith)
