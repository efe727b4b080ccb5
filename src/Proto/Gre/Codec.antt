-- ===== src/Proto/Gre/Codec.antt =====
-- The EoIP header codec: what encoding writes is what decoding reads, both ways.
use eo_ip_rs.Base.{
  length, take, drop, All, length-drop, ok, IsByte, IsU16, to_be_bytes, to_le_bytes, ℕ, ◌+◌, ◌≤◌,
  ◌≡◌, refl, List, ◌∷◌, ◌++◌, arith,
}
use eo_ip_rs.Proto.Gre.{encode_eoip_header, decode_eoip_header, eoip_magic}

-- The eight bytes of a header.
abbrev pub header_bytes : ℕ → ℕ → List ℕ
header_bytes tid plen = eoip_magic ++ (to_be_bytes plen ++ to_le_bytes tid)

-- On a buffer with room, encoding replaces the first eight bytes and nothing else.
pub encode_eoip_header_lem :
    (tid plen : ℕ) (buf : List ℕ)
    → 8 ≤ length buf
    → encode_eoip_header tid plen buf ≡ ok (header_bytes tid plen ++ drop 8 buf)
unfolding encode_eoip_header
encode_eoip_header_lem tid plen (a ∷ b ∷ c ∷ d ∷ e ∷ f ∷ g ∷ h ∷ rest) room = ground arith
encode_eoip_header_lem tid plen _ room = absurd (omega arith)

-- Decoding a header that is followed by anything.
pub decode-header_bytes :
    (tid plen : ℕ) (rest : List ℕ)
    → decode_eoip_header (header_bytes tid plen ++ rest) ≡ ok (tid, plen, 8)
unfolding decode_eoip_header
decode-header_bytes tid plen rest = ground arith

pub length-header_bytes :
    (tid plen : ℕ) (rest : List ℕ) → length (header_bytes tid plen ++ rest) ≡ 8 + length rest
length-header_bytes tid plen rest = omega arith

-- Encoding a `u16` tunnel id and payload length into a buffer of at least 8 bytes succeeds; decoding
-- the result gives both back with header length 8, the eight header values are bytes, and the
-- buffer keeps its length and every byte behind the header.
pub decode-encode_eoip_header :
    (tid plen : ℕ) (buf : List ℕ)
    → IsU16 tid
    → IsU16 plen
    → 8 ≤ length buf
    → (out : List ℕ) × (encode_eoip_header tid plen buf ≡ ok out)
      × (decode_eoip_header out ≡ ok (tid, plen, 8))
      × All IsByte (take 8 out)
      × (drop 8 out ≡ drop 8 buf)
      × (length out ≡ length buf)
decode-encode_eoip_header tid plen buf ht hp room = (
  header_bytes tid plen ++ drop 8 buf,
  encode_eoip_header_lem tid plen buf room,
  decode-header_bytes tid plen (drop 8 buf),
  omega arith,
  refl,
  omega (arith, length-drop 8 buf),
)

-- On a buffer of bytes that decodes, the two numbers are `u16`s, the header length is 8, and encoding
-- them into the same buffer changes nothing: a header has one spelling.
pub encode-decode_eoip_header :
    (buf : List ℕ) (tid plen hdr : ℕ)
    → All IsByte buf
    → decode_eoip_header buf ≡ ok (tid, plen, hdr)
    → IsU16 tid × IsU16 plen × (hdr ≡ 8) × (encode_eoip_header tid plen buf ≡ ok buf)
unfolding decode_eoip_header encode_eoip_header
encode-decode_eoip_header (a ∷ b ∷ c ∷ d ∷ e ∷ f ∷ g ∷ h ∷ rest) tid plen hdr bytes dec =
    ground arith
encode-decode_eoip_header _ tid plen hdr bytes dec = cc
