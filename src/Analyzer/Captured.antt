-- ===== src/Analyzer/Captured.antt =====
-- What the analyzer's parsers do with any captured bytes.
use eo_ip_rs.Base.{
  ltb, ◌==◌, Bool-cases, le→not_ltb, length, take, Result, ok, err, panic, slice_backwards,
  slice_eq, from_be_bytes, ℕ, ◌+◌, ◌*◌, ◌/◌, ◌≤◌, ◌<◌, min, bit_and, ◌≡◌, refl, ◌↔◌, ◌⊎◌, inl, inr,
  true, false, List, [], ◌∷◌, ◌++◌, arith,
}
use eo_ip_rs.Proto.Gre.{eoip_magic}
use eo_ip_rs.Analyzer.Error.{AnalyzerError}
use eo_ip_rs.Analyzer.Ethernet.{EthernetFrame, parse_ethernet_frame}
use eo_ip_rs.Analyzer.Ip.{parse_ip_header, parse_ipv4}
use eo_ip_rs.Analyzer.Deviation.{check_eoip_deviations}

-- What the parser of a frame may answer.
abbrev pub FrameOutcome : List ℕ → Result EthernetFrame AnalyzerError → Type 0
FrameOutcome bytes (ok f) =
    (f.dst_mac ++ f.src_mac ≡ take 12 bytes)
    × (14 ≤ f.payload_offset)
    × (f.payload_offset ≤ length bytes)
FrameOutcome bytes (err e) = length bytes < 18
FrameOutcome bytes panic = ⊥

-- On any bytes the parser of Ethernet frames returns. If it succeeds, the two addresses are the first
-- twelve bytes and the payload starts inside the buffer, behind 14 bytes or more; if it fails, there
-- were less than 18 bytes.
pub parse_ethernet_frame-FrameOutcome :
    (bytes : List ℕ) → FrameOutcome bytes (parse_ethernet_frame bytes)
unfolding parse_ethernet_frame
parse_ethernet_frame-FrameOutcome
      (a0 ∷ a1 ∷ a2 ∷ a3 ∷ a4 ∷ a5 ∷ a6 ∷ a7 ∷ a8 ∷ a9 ∷ a10 ∷ a11 ∷ a12 ∷ a13 ∷ a14 ∷ a15 ∷ a16
        ∷ a17 ∷ rest) =
    elim (Bool-cases (from_be_bytes a12 a13 == 0x8100)) [
      | inl tagged ↦ ground arith
      | inr plain ↦ ground arith
    ]
parse_ethernet_frame-FrameOutcome
      (a0 ∷ a1 ∷ a2 ∷ a3 ∷ a4 ∷ a5 ∷ a6 ∷ a7 ∷ a8 ∷ a9 ∷ a10 ∷ a11 ∷ a12 ∷ a13 ∷ a14 ∷ a15 ∷ a16
        ∷ []) =
    elim (Bool-cases (from_be_bytes a12 a13 == 0x8100)) [
      | inl tagged ↦ rw tagged (omega arith)
      | inr plain ↦ rw plain (refl, omega arith, omega arith)
    ]
parse_ethernet_frame-FrameOutcome
      (a0 ∷ a1 ∷ a2 ∷ a3 ∷ a4 ∷ a5 ∷ a6 ∷ a7 ∷ a8 ∷ a9 ∷ a10 ∷ a11 ∷ a12 ∷ a13 ∷ a14 ∷ a15 ∷ []) =
    elim (Bool-cases (from_be_bytes a12 a13 == 0x8100)) [
      | inl tagged ↦ rw tagged (omega arith)
      | inr plain ↦ rw plain (refl, omega arith, omega arith)
    ]
parse_ethernet_frame-FrameOutcome
      (a0 ∷ a1 ∷ a2 ∷ a3 ∷ a4 ∷ a5 ∷ a6 ∷ a7 ∷ a8 ∷ a9 ∷ a10 ∷ a11 ∷ a12 ∷ a13 ∷ a14 ∷ []) =
    elim (Bool-cases (from_be_bytes a12 a13 == 0x8100)) [
      | inl tagged ↦ rw tagged (omega arith)
      | inr plain ↦ rw plain (refl, omega arith, omega arith)
    ]
parse_ethernet_frame-FrameOutcome
      (a0 ∷ a1 ∷ a2 ∷ a3 ∷ a4 ∷ a5 ∷ a6 ∷ a7 ∷ a8 ∷ a9 ∷ a10 ∷ a11 ∷ a12 ∷ a13 ∷ []) =
    elim (Bool-cases (from_be_bytes a12 a13 == 0x8100)) [
      | inl tagged ↦ rw tagged (omega arith)
      | inr plain ↦ rw plain (refl, omega arith, omega arith)
    ]
parse_ethernet_frame-FrameOutcome _ = omega arith

-- The header has no deviation exactly if its magic is that of EoIP and its payload length is 0, or at
-- least 14 and the number of bytes that follow.
pub check_eoip_deviations_iff :
    (magic : List ℕ) (payload_len remaining : ℕ)
    → (check_eoip_deviations magic payload_len remaining ≡ []) ↔ (
        (slice_eq magic eoip_magic ≡ true)
        × ((payload_len ≡ 0) ⊎ ((14 ≤ payload_len) × (payload_len ≡ remaining))))
unfolding check_eoip_deviations
check_eoip_deviations_iff magic payload_len remaining = (λ h. ground arith, λ h. ground arith)

-- An IPv4 header whose total length is less than its own header length makes the parser panic, in
-- every packet that holds the header.
pub parse_ip_header_panics :
    (b0 b1 b2 b3 b4 b5 b6 b7 b8 b9 b10 b11 b12 b13 b14 b15 b16 b17 b18 b19 : ℕ) (rest : List ℕ)
    → b0 / 16 ≡ 4
    → 20 ≤ bit_and b0 0x0F * 4
    → bit_and b0 0x0F * 4 ≤ 20 + length rest
    → b2 * 256 + b3 < bit_and b0 0x0F * 4
    → parse_ip_header (
        b0 ∷ b1 ∷ b2 ∷ b3 ∷ b4 ∷ b5 ∷ b6 ∷ b7 ∷ b8 ∷ b9 ∷ b10 ∷ b11 ∷ b12 ∷ b13 ∷ b14 ∷ b15 ∷ b16
        ∷ b17 ∷ b18 ∷ b19 ∷ rest)
      ≡ panic
unfolding parse_ip_header parse_ipv4
parse_ip_header_panics b0 b1 b2 b3 b4 b5 b6 b7 b8 b9 b10 b11 b12 b13 b14 b15 b16 b17 b18 b19 rest
      four own fits small =
    let bytes =
      b0 ∷ b1 ∷ b2 ∷ b3 ∷ b4 ∷ b5 ∷ b6 ∷ b7 ∷ b8 ∷ b9 ∷ b10 ∷ b11 ∷ b12 ∷ b13 ∷ b14 ∷ b15 ∷ b16
      ∷ b17 ∷ b18 ∷ b19 ∷ rest in
    let back =
      slice_backwards {E = AnalyzerError} bytes (bit_and b0 0x0F * 4)
        (min (b2 * 256 + b3) (length bytes)) (omega arith) in
    let long : ltb (length bytes) 20 ≡ false = le→not_ltb _ _ (omega arith) in
    let one : ltb (bit_and b0 0x0F * 4) 20 ≡ false = le→not_ltb _ _ own in
    let two : ltb (length bytes) (bit_and b0 0x0F * 4) ≡ false = le→not_ltb _ _ (omega arith) in
    rw (four, long, one, two, back) refl
