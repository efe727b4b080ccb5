-- ===== src/Proto/Etherip/Validate.antt =====
-- Validation of whole EoIPv6 packets.
use eo_ip_rs.Base.{
  length, All, ok, IsByte, low_nibble, ℕ, ◌+◌, ◌*◌, ◌/◌, ◌≤◌, ◌<◌, ◌≡◌, ◌↔◌, List, ◌∷◌, ◌++◌, arith,
}
use eo_ip_rs.Proto.Etherip.{validate_eoipv6_packet, decode_eoipv6_header}
use eo_ip_rs.Proto.Etherip.Codec.{decode_bytes, header_bytes}

-- On a buffer of bytes, validation succeeds exactly where the buffer holds an Ethernet header behind
-- the 2 bytes, its length is the IPv6 payload length, and the header decodes.
pub validate_eoipv6_packet_iff :
    (buf : List ℕ) (n : ℕ)
    → All IsByte buf
    → (validate_eoipv6_packet buf n ≡ ok tt) ↔ (
        (16 ≤ length buf)
        × (length buf ≡ n)
        × ((tid : ℕ) × (decode_eoipv6_header buf ≡ ok (tid, 2))))
unfolding validate_eoipv6_packet
validate_eoipv6_packet_iff (a ∷ b ∷ rest) n bytes = (
  λ v. (
    ground arith,
    ground arith,
    (a / 16 * 256 + b, ground (arith, low_nibble a, decode_bytes a b rest)),
  ),
  λ (long, same, (tid, dec)). ground (arith, low_nibble a, decode_bytes a b rest),
)
validate_eoipv6_packet_iff _ n bytes = (λ v. cc, λ (long, same, dec). absurd (omega arith))

pub validate-header_bytes :
    (tid : ℕ) (frame : List ℕ)
    → tid < 4096
    → 14 ≤ length frame
    → validate_eoipv6_packet (header_bytes tid ++ frame) (2 + length frame) ≡ ok tt
unfolding validate_eoipv6_packet
validate-header_bytes tid frame small size = ground (arith, low_nibble (tid / 256 * 16 + 3))
