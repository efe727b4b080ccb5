-- ===== src/Analyzer/PcapReader/Stripped.antt =====
-- What is taken off in front of a captured packet.
use eo_ip_rs.Base.{
  ltb, ◌==◌, if◌then◌else◌, ltb→lt, Bool-cases, le→not_ltb, not_ltb→le, length, take, drop, All,
  take-append-drop, All-drop, Result, ok, err, slice_from_lem, slice_eq, IsByte, from_be_bytes,
  Text, codes, ℕ, ◌≤◌, ◌<◌, ◌≡◌, refl, inl, inr, Bool, Option, none, some, List, [], ◌∷◌, ◌++◌,
  arith,
}
use eo_ip_rs.Analyzer.Error.{AnalyzerError, packet_too_short, unsupported_protocol}
use eo_ip_rs.Analyzer.PcapReader.{
  DataLink, ethernet, raw, linux_sll, linux_sll2, other, strip_link_layer, without_header,
}

-- The bytes at 12 and 13 are those of an 802.1Q tag.
is_tagged : List ℕ → Bool
is_tagged bytes = slice_eq (take 2 (drop 12 bytes)) (0x81 ∷ 0x00 ∷ [])

-- The size of the link layer's header in front of the bytes; none for a type that is not known.
pub header_size : DataLink → List ℕ → Option ℕ
unfolding is_tagged
header_size ethernet bytes = some (if is_tagged bytes then 18 else 14)
header_size raw bytes = some 0
header_size linux_sll bytes = some 16
header_size linux_sll2 bytes = some 20
header_size (other n) bytes = none

-- What a call makes of bytes behind a header of the given size, if the size is known.
abbrev pub IsBehind : Option ℕ → List ℕ → Result (List ℕ) AnalyzerError → Type 0
IsBehind (some n) bytes (ok ip) = (n ≤ length bytes) × (take n bytes ++ ip ≡ bytes)
IsBehind (some n) bytes (err (packet_too_short text)) = length bytes < n
IsBehind none bytes (err (unsupported_protocol text)) = Unit
IsBehind size bytes r = ⊥

same_tag :
    (a b : ℕ)
    → IsByte a
    → IsByte b
    → slice_eq (a ∷ b ∷ []) (0x81 ∷ 0x00 ∷ []) ≡ (from_be_bytes a b == 0x8100)
same_tag a b ha hb = ground arith

without_header-IsBehind :
    (n : ℕ) (text : Text) (bytes : List ℕ) → IsBehind (some n) bytes (without_header n text bytes)
unfolding without_header
without_header-IsBehind n text bytes = elim (Bool-cases (ltb (length bytes) n)) [
  | inl short ↦ rw short (ltb→lt (length bytes) n short)
  | inr long ↦
      let enough = not_ltb→le (length bytes) n long in
      rw (long, slice_from_lem {E = AnalyzerError} bytes n enough)
        (enough, take-append-drop n bytes)
]

-- On bytes the call never panics: a packet of a known link type loses exactly the link layer's header,
-- or is refused as shorter than that, and a packet of another type is refused as such.
pub strip_link_layer-IsBehind :
    (show_link : DataLink → Text) (link_type : DataLink) (bytes : List ℕ)
    → All IsByte bytes
    → IsBehind (header_size link_type bytes) bytes (strip_link_layer show_link link_type bytes)
unfolding strip_link_layer header_size is_tagged without_header
strip_link_layer-IsBehind show_link ethernet
      (b0 ∷ b1 ∷ b2 ∷ b3 ∷ b4 ∷ b5 ∷ b6 ∷ b7 ∷ b8 ∷ b9 ∷ b10 ∷ b11 ∷ b12 ∷ b13 ∷ rest) are =
    let bytes = b0 ∷ b1 ∷ b2 ∷ b3 ∷ b4 ∷ b5 ∷ b6 ∷ b7 ∷ b8 ∷ b9 ∷ b10 ∷ b11 ∷ b12 ∷ b13 ∷ rest in
    let behind : All IsByte (b12 ∷ b13 ∷ rest) = All-drop IsByte 12 bytes are in
    let enough = le→not_ltb (length bytes) 14 (omega arith) in
    rw (enough, same_tag b12 b13 behind.0 behind.1.0)
      (without_header-IsBehind (if from_be_bytes b12 b13 == 0x8100 then 18 else 14)
        (codes "Ethernet+VLAN frame too short") bytes)
strip_link_layer-IsBehind show_link ethernet bytes are = ground arith
strip_link_layer-IsBehind show_link raw bytes are = (omega arith, refl)
strip_link_layer-IsBehind show_link linux_sll bytes are =
    without_header-IsBehind 16 (codes "Linux SLL header too short") bytes
strip_link_layer-IsBehind show_link linux_sll2 bytes are =
    without_header-IsBehind 20 (codes "Linux SLL2 header too short") bytes
strip_link_layer-IsBehind show_link (other n) bytes are = tt
