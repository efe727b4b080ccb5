-- ===== src/Proto/Etherip/Codec.antt =====
-- The EoIPv6 header codec: what encoding writes is what decoding reads, both ways.
use eo_ip_rs.Base.{
  ◌==◌, if◌then◌else◌, length, take, drop, All, length-drop, ok, err, panic, IsByte, low_nibble,
  low_twelve_bits, low_byte, nibble_or_byte, nibble_or_three, ℕ, ◌+◌, ◌*◌, ◌/◌, ◌%◌, ◌≤◌, ◌<◌, ◌≡◌,
  refl, ◌≢◌, ◌⊎◌, inl, inr, List, [], ◌∷◌, ◌++◌, arith,
}
use eo_ip_rs.Proto.Error.{packet_too_short, tunnel_id_out_of_range, invalid_version}
use eo_ip_rs.Proto.Etherip.{encode_eoipv6_header, decode_eoipv6_header}

-- The two bytes of a header: the high nibble of the id over the version 3, and the id's low byte.
abbrev pub header_bytes : ℕ → List ℕ
header_bytes tid = (tid / 256 * 16 + 3) ∷ tid % 256 ∷ []

pub encode_eoipv6_header_lem :
    (tid : ℕ) (buf : List ℕ)
    → tid < 4096
    → 2 ≤ length buf
    → encode_eoipv6_header tid buf ≡ ok (header_bytes tid ++ drop 2 buf)
unfolding encode_eoipv6_header
encode_eoipv6_header_lem tid (a ∷ b ∷ rest) small room =
    ground (arith, low_twelve_bits tid, low_byte tid, nibble_or_three (tid / 256))
encode_eoipv6_header_lem tid _ small room = absurd (omega arith)

-- A header that is followed by anything.
pub decode-header_bytes :
    (tid : ℕ) (rest : List ℕ)
    → tid < 4096
    → decode_eoipv6_header (header_bytes tid ++ rest) ≡ ok (tid, 2)
unfolding decode_eoipv6_header
decode-header_bytes tid rest small =
    ground (arith, low_nibble (tid / 256 * 16 + 3), nibble_or_byte tid)

-- Encoding a 12-bit tunnel id into a buffer of at least 2 bytes succeeds; decoding the result gives the
-- id back with header length 2, and the buffer keeps its length and every byte behind the header.
pub decode-encode_eoipv6_header :
    (tid : ℕ) (buf : List ℕ)
    → tid < 4096
    → 2 ≤ length buf
    → (out : List ℕ) × (encode_eoipv6_header tid buf ≡ ok out)
      × (decode_eoipv6_header out ≡ ok (tid, 2))
      × All IsByte (take 2 out)
      × (drop 2 out ≡ drop 2 buf)
      × (length out ≡ length buf)
decode-encode_eoipv6_header tid buf small room = (
  header_bytes tid ++ drop 2 buf,
  encode_eoipv6_header_lem tid buf small room,
  decode-header_bytes tid (drop 2 buf) small,
  omega arith,
  refl,
  omega (arith, length-drop 2 buf),
)

-- What a byte decodes to, in plain arithmetic.
pub decode_bytes :
    (a b : ℕ) (rest : List ℕ)
    → IsByte a
    → IsByte b
    → decode_eoipv6_header (a ∷ b ∷ rest)
      ≡ (if a % 16 == 3 then ok (a / 16 * 256 + b, 2) else err (invalid_version 3 (a % 16)))
unfolding decode_eoipv6_header
decode_bytes a b rest ha hb = ground (arith, low_nibble a, nibble_or_byte (a / 16 * 256 + b))

-- On a buffer of bytes that decodes, the id has 12 bits, the header length is 2, and encoding the id
-- into the same buffer changes nothing.
pub encode-decode_eoipv6_header :
    (buf : List ℕ) (tid hdr : ℕ)
    → All IsByte buf
    → decode_eoipv6_header buf ≡ ok (tid, hdr)
    → (tid < 4096) × (hdr ≡ 2) × (encode_eoipv6_header tid buf ≡ ok buf)
encode-decode_eoipv6_header (a ∷ b ∷ rest) tid hdr bytes dec =
    ground
      (arith, decode_bytes a b rest, encode_eoipv6_header_lem (a / 16 * 256 + b) (a ∷ b ∷ rest))
encode-decode_eoipv6_header _ tid hdr bytes dec = unfold decode_eoipv6_header in cc

three_ranges : (t n : ℕ) → (4096 ≤ t) ⊎ ((t < 4096) × (n < 2)) ⊎ ((t < 4096) × (2 ≤ n))
three_ranges t n = ground arith

-- Encoding an id of more than 12 bits fails with the id, whatever the buffer; a smaller id fails with
-- the length of a buffer of less than 2 bytes, and is encoded into any other.
pub encode_eoipv6_header_cases :
    (tid : ℕ) (buf : List ℕ)
    → ((4096 ≤ tid) × (encode_eoipv6_header tid buf ≡ err (tunnel_id_out_of_range tid 4095)))
      ⊎ ((tid < 4096)
          × (length buf < 2)
          × (encode_eoipv6_header tid buf ≡ err (packet_too_short (length buf) 2)))
      ⊎ ((tid < 4096)
          × (2 ≤ length buf)
          × ((out : List ℕ) × (encode_eoipv6_header tid buf ≡ ok out)))
encode_eoipv6_header_cases tid buf = elim (three_ranges tid (length buf)) [
  | inl big ↦ inl (big, unfold encode_eoipv6_header in ground arith)
  | inr (inl (small, short)) ↦ inr (inl (small, short, unfold encode_eoipv6_header in ground arith))
  | inr (inr (small, room)) ↦
      inr (inr (small, room, (_, encode_eoipv6_header_lem tid buf small room)))
]

-- Decoding never panics.
pub decode_eoipv6_header-ne-panic : (buf : List ℕ) → decode_eoipv6_header buf ≢ panic
unfolding decode_eoipv6_header
decode_eoipv6_header-ne-panic (a ∷ b ∷ rest) e = ground arith
decode_eoipv6_header-ne-panic _ e = cc
