-- ===== src/Proto/Pipeline/Safety.antt =====
-- The parsers never panic, and never point past their buffer.
use eo_ip_rs.Base.{
  length, All, Result, ok, err, panic, >>=-eq-ok, IsByte, IsU16, ℕ, ◌≤◌, ◌≡◌, refl, ◌≢◌, List, ◌∷◌,
  arith,
}
use eo_ip_rs.Proto.Gre.{decode_eoip_header, validate_eoip_packet}
use eo_ip_rs.Proto.Gre.Codec.{encode-decode_eoip_header}
use eo_ip_rs.Proto.Gre.Validate.{validate_decoded}
use eo_ip_rs.Proto.Etherip.{decode_eoipv6_header, validate_eoipv6_packet}
use eo_ip_rs.Proto.Etherip.Validate.{validate_eoipv6_packet_iff}
use eo_ip_rs.Proto.Etherip.Codec.{decode_eoipv6_header-ne-panic, encode-decode_eoipv6_header}
use eo_ip_rs.Proto.UdpShim.{decode_udp_shim}
use eo_ip_rs.Proto.Error.{EoipError}
use eo_ip_rs.Proto.Pipeline.{
  validate_and_parse_eoip, validate_and_parse_eoipv6, validate_and_parse_udp_encap,
}

-- A parser's answer is an error, or a `u16` id with an offset inside the buffer.
abbrev pub InBounds : List ℕ → Result (ℕ × ℕ) EoipError → Type 0
InBounds buf (ok (tid, offset)) = IsU16 tid × (offset ≤ length buf)
InBounds buf (err e) = Unit
InBounds buf panic = ⊥

pub decode_eoip_header-ne-panic : (buf : List ℕ) → decode_eoip_header buf ≢ panic
unfolding decode_eoip_header
decode_eoip_header-ne-panic (a ∷ b ∷ c ∷ d ∷ e ∷ f ∷ g ∷ h ∷ rest) p = ground arith
decode_eoip_header-ne-panic _ p = cc

parse_eoip-ne-panic : (buf : List ℕ) → validate_and_parse_eoip buf ≢ panic
unfolding validate_and_parse_eoip validate_eoip_packet
parse_eoip-ne-panic buf e = ground (arith, decode_eoip_header-ne-panic buf)

parse_eoip_ok :
    (buf : List ℕ) (tid offset : ℕ)
    → All IsByte buf
    → validate_and_parse_eoip buf ≡ ok (tid, offset)
    → IsU16 tid × (offset ≤ length buf)
unfolding validate_and_parse_eoip
parse_eoip_ok buf tid offset bytes e =
    let (u, valid, parsed) = >>=-eq-ok (validate_eoip_packet buf (length buf)) _ e in
    let ((t, plen, hdr), dec, same) = >>=-eq-ok (decode_eoip_header buf) _ parsed in
    let (ht, hp, hl, enc) = encode-decode_eoip_header buf t plen hdr bytes dec in
    let facts = (validate_decoded buf (length buf) t plen hdr dec).0 valid in ground arith

parse_eoipv6-ne-panic : (buf : List ℕ) → validate_and_parse_eoipv6 buf ≢ panic
unfolding validate_and_parse_eoipv6 validate_eoipv6_packet
parse_eoipv6-ne-panic (a ∷ rest) e = ground (arith, decode_eoipv6_header-ne-panic (a ∷ rest))
parse_eoipv6-ne-panic _ e = cc

parse_eoipv6_ok :
    (buf : List ℕ) (tid offset : ℕ)
    → All IsByte buf
    → validate_and_parse_eoipv6 buf ≡ ok (tid, offset)
    → IsU16 tid × (offset ≤ length buf)
unfolding validate_and_parse_eoipv6
parse_eoipv6_ok buf tid offset bytes e =
    let (u, valid, parsed) = >>=-eq-ok (validate_eoipv6_packet buf (length buf)) _ e in
    let ((t, hdr), dec, same) = >>=-eq-ok (decode_eoipv6_header buf) _ parsed in
    let (ht, hl, enc) = encode-decode_eoipv6_header buf t hdr bytes dec in
    let facts = (validate_eoipv6_packet_iff buf (length buf) bytes).0 valid in ground arith

parse_udp-ne-panic : (buf : List ℕ) → validate_and_parse_udp_encap buf ≢ panic
unfolding validate_and_parse_udp_encap decode_udp_shim
parse_udp-ne-panic (a ∷ b ∷ c ∷ d ∷ rest) e =
    ground (arith, parse_eoip-ne-panic rest, parse_eoipv6-ne-panic rest)
parse_udp-ne-panic _ e = cc

parse_udp_ok :
    (buf : List ℕ) (tid offset : ℕ)
    → All IsByte buf
    → validate_and_parse_udp_encap buf ≡ ok (tid, offset)
    → IsU16 tid × (offset ≤ length buf)
unfolding validate_and_parse_udp_encap decode_udp_shim
parse_udp_ok (a ∷ b ∷ c ∷ d ∷ rest) tid offset bytes e =
    grind (arith, parse_eoip_ok rest, parse_eoipv6_ok rest)
parse_udp_ok _ tid offset bytes e = cc

InBounds-of :
    (buf : List ℕ) (r : Result (ℕ × ℕ) EoipError)
    → r ≢ panic
    → ((tid offset : ℕ) → r ≡ ok (tid, offset) → IsU16 tid × (offset ≤ length buf))
    → InBounds buf r
InBounds-of buf (ok (tid, offset)) safe fits = fits tid offset refl
InBounds-of buf (err e) safe fits = tt
InBounds-of buf panic safe fits = safe refl

-- The UDP parser never panics, on any buffer of bytes: its `unreachable!` is not reached and its slice
-- is in range. If it succeeds, the id is a `u16` and the offset lies inside the buffer.
pub parse_udp_encap_InBounds :
    (buf : List ℕ) → All IsByte buf → InBounds buf (validate_and_parse_udp_encap buf)
parse_udp_encap_InBounds buf bytes =
    InBounds-of buf _ (parse_udp-ne-panic buf) (λ tid offset. parse_udp_ok buf tid offset bytes)
