-- ===== src/Proto/Pipeline/RoundTrip.antt =====
-- What the encoders write in front of a frame, the one-call parsers read.
use eo_ip_rs.Base.{length, drop, ok, ℕ, ◌≤◌, ◌<◌, ◌≡◌, ◌⊎◌, List, [], ◌∷◌, ◌++◌, arith}
use eo_ip_rs.Proto.Gre
use eo_ip_rs.Proto.Gre.{encode_eoip_header}
use eo_ip_rs.Proto.Gre.Validate.{validate_decoded}
use eo_ip_rs.Proto.Etherip
use eo_ip_rs.Proto.Etherip.{encode_eoipv6_header}
use eo_ip_rs.Proto.Etherip.Validate.{validate-header_bytes}
use eo_ip_rs.Proto.UdpShim
use eo_ip_rs.Proto.UdpShim.{encode_udp_shim}
use eo_ip_rs.Proto.Pipeline.{
  validate_and_parse_eoip, validate_and_parse_eoipv6, validate_and_parse_udp_encap,
}

-- A header and a frame of exactly the announced length.
pub parse_eoip_lem :
    (tid : ℕ) (frame : List ℕ)
    → (length frame ≡ 0) ⊎ (14 ≤ length frame)
    → validate_and_parse_eoip (Gre.Codec.header_bytes tid (length frame) ++ frame) ≡ ok (tid, 8)
unfolding validate_and_parse_eoip
parse_eoip_lem tid frame size =
    let buf : List ℕ = Gre.Codec.header_bytes tid (length frame) ++ frame in
    let dec = Gre.Codec.decode-header_bytes tid (length frame) frame in
    let valid =
      (validate_decoded buf (length buf) tid (length frame) 8 dec).1
        (size, omega arith, omega arith) in
    cc (valid, dec)

pub parse_eoipv6_lem :
    (tid : ℕ) (frame : List ℕ)
    → tid < 4096
    → 14 ≤ length frame
    → validate_and_parse_eoipv6 (Etherip.Codec.header_bytes tid ++ frame) ≡ ok (tid, 2)
unfolding validate_and_parse_eoipv6
parse_eoipv6_lem tid frame small size = ground (
  arith,
  validate-header_bytes tid frame small size,
  Etherip.Codec.decode-header_bytes tid frame small,
)

-- A frame of at least 14 bytes, or none (a keepalive), behind the header that the encoder writes for
-- it, behind a shim of type EoIP, parses to the tunnel id and offset 12, where the frame starts.
pub parse_udp_encap_eoip :
    (tid : ℕ) (frame shim header : List ℕ)
    → (length frame ≡ 0) ⊎ (14 ≤ length frame)
    → encode_udp_shim 4 (0 ∷ 0 ∷ 0 ∷ 0 ∷ []) ≡ ok shim
    → encode_eoip_header tid (length frame) (0 ∷ 0 ∷ 0 ∷ 0 ∷ 0 ∷ 0 ∷ 0 ∷ 0 ∷ []) ≡ ok header
    → (validate_and_parse_udp_encap (shim ++ (header ++ frame)) ≡ ok (tid, 12))
      × (drop 12 (shim ++ (header ++ frame)) ≡ frame)
unfolding validate_and_parse_udp_encap encode_udp_shim encode_eoip_header
parse_udp_encap_eoip tid frame shim header size es eh = ground (
  arith,
  UdpShim.Codec.decode-header_bytes 4 0 (Gre.Codec.header_bytes tid (length frame) ++ frame),
  parse_eoip_lem tid frame,
)

-- A frame of at least 14 bytes behind the header that the encoder writes for a 12-bit id, behind a shim
-- of type EoIPv6, parses to the tunnel id and offset 6, where the frame starts.
pub parse_udp_encap_eoipv6 :
    (tid : ℕ) (frame shim header : List ℕ)
    → tid < 4096
    → 14 ≤ length frame
    → encode_udp_shim 6 (0 ∷ 0 ∷ 0 ∷ 0 ∷ []) ≡ ok shim
    → encode_eoipv6_header tid (0 ∷ 0 ∷ []) ≡ ok header
    → (validate_and_parse_udp_encap (shim ++ (header ++ frame)) ≡ ok (tid, 6))
      × (drop 6 (shim ++ (header ++ frame)) ≡ frame)
unfolding validate_and_parse_udp_encap
parse_udp_encap_eoipv6 tid frame shim header small size es eh = ground (
  arith,
  UdpShim.Codec.encode_udp_shim_lem 6 (0 ∷ 0 ∷ 0 ∷ 0 ∷ []),
  Etherip.Codec.encode_eoipv6_header_lem tid (0 ∷ 0 ∷ []),
  UdpShim.Codec.decode-header_bytes 6 0 (Etherip.Codec.header_bytes tid ++ frame),
  parse_eoipv6_lem tid frame,
)
