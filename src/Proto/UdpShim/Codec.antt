-- ===== src/Proto/UdpShim/Codec.antt =====
-- The shim's codec.
use eo_ip_rs.Base.{
  length, drop, ok, panic, copy_at, ℕ, ◌≤◌, ◌≡◌, refl, ◌≢◌, ◌⊎◌, List, [], ◌∷◌, ◌++◌, arith,
}
use eo_ip_rs.Proto.UdpShim.{encode_udp_shim, decode_udp_shim}

abbrev pub IsInnerType : ℕ → Type 0
IsInnerType t = (t ≡ 4) ⊎ (t ≡ 6)

abbrev pub header_bytes : ℕ → List ℕ
header_bytes t = 0x45 ∷ 0x4F ∷ t ∷ 0 ∷ []

pub encode_udp_shim_lem :
    (t : ℕ) (buf : List ℕ)
    → IsInnerType t
    → 4 ≤ length buf
    → encode_udp_shim t buf ≡ ok (header_bytes t ++ drop 4 buf)
unfolding encode_udp_shim
encode_udp_shim_lem t (a ∷ b ∷ c ∷ d ∷ rest) known room = ground arith
encode_udp_shim_lem t _ known room = absurd (omega arith)

pub decode-header_bytes :
    (t : ℕ) (reserved : ℕ) (rest : List ℕ)
    → IsInnerType t
    → decode_udp_shim (0x45 ∷ 0x4F ∷ t ∷ reserved ∷ rest) ≡ ok (t, 4)
unfolding decode_udp_shim
decode-header_bytes t reserved rest known = ground arith

-- A decoded shim: its inner type is one of the two, its length 4, and it stands in front of the buffer.
pub decode_udp_shim_ok :
    (buf : List ℕ) (t n : ℕ)
    → decode_udp_shim buf ≡ ok (t, n)
    → IsInnerType t × (n ≡ 4) × ((reserved : ℕ) × (buf ≡ 0x45 ∷ 0x4F ∷ t ∷ reserved ∷ drop 4 buf))
unfolding decode_udp_shim
decode_udp_shim_ok (a ∷ b ∷ c ∷ d ∷ rest) t n dec = (ground arith, ground arith, (d, ground arith))
decode_udp_shim_ok _ t n dec = cc

-- Decoding never panics.
pub decode_udp_shim-ne-panic : (buf : List ℕ) → decode_udp_shim buf ≢ panic
unfolding decode_udp_shim
decode_udp_shim-ne-panic (a ∷ b ∷ c ∷ d ∷ rest) e = ground arith
decode_udp_shim-ne-panic _ e = cc

-- For each of the two inner types and a buffer of at least 4 bytes, encoding succeeds, decoding the
-- result gives the type back with length 4, and whatever a receiver finds in the reserved byte it
-- decodes to the same. The bytes behind the shim stay.
pub decode-encode_udp_shim :
    (t : ℕ) (buf : List ℕ)
    → IsInnerType t
    → 4 ≤ length buf
    → (out : List ℕ) × (encode_udp_shim t buf ≡ ok out)
      × (decode_udp_shim out ≡ ok (t, 4))
      × ((reserved : ℕ) → decode_udp_shim (copy_at 3 (reserved ∷ []) out) ≡ ok (t, 4))
      × (drop 4 out ≡ drop 4 buf)
decode-encode_udp_shim t buf known room = (
  header_bytes t ++ drop 4 buf,
  encode_udp_shim_lem t buf known room,
  decode-header_bytes t 0 (drop 4 buf) known,
  λ reserved. decode-header_bytes t reserved (drop 4 buf) known,
  refl,
)
