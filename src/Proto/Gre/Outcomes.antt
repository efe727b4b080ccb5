-- ===== src/Proto/Gre/Outcomes.antt =====
-- What decoding an EoIP header answers, on every buffer.
use eo_ip_rs.Base.{
  Bool-cases, length, take, All, Result, ok, err, slice_eq, IsByte, ℕ, ◌+◌, ◌*◌, ◌≤◌, ◌<◌, ◌≡◌,
  refl, sym, subst, ◌≢◌, inl, inr, true, false, List, [], ◌∷◌, ◌++◌, arith,
}
use eo_ip_rs.Proto.Error.{EoipError, packet_too_short, invalid_magic_bytes}
use eo_ip_rs.Proto.Gre.{decode_eoip_header, eoip_magic}
use eo_ip_rs.Proto.Gre.Codec.{header_bytes, decode-header_bytes}

-- The three answers: too short, another protocol's magic, or a header with what follows it.
pub data DecodeOutcome (buf : List ℕ) : Result (ℕ × ℕ × ℕ) EoipError → Type 0 where
  short : length buf < 8 → DecodeOutcome buf (err (packet_too_short (length buf) 8))
  alien :
      8 ≤ length buf
      → take 4 buf ≢ eoip_magic
      → DecodeOutcome buf (err (invalid_magic_bytes eoip_magic (take 4 buf)))
  header :
      (tid plen : ℕ) (rest : List ℕ)
      → buf ≡ header_bytes tid plen ++ rest
      → DecodeOutcome buf (ok (tid, plen, 8))

abbrev front : (a b c d : ℕ) → List ℕ
front a b c d = a ∷ b ∷ c ∷ d ∷ []

decode_alien :
    (a b c d e f g h : ℕ) (rest : List ℕ)
    → slice_eq (front a b c d) eoip_magic ≡ false
    → decode_eoip_header (a ∷ b ∷ c ∷ d ∷ e ∷ f ∷ g ∷ h ∷ rest)
      ≡ err (invalid_magic_bytes eoip_magic (front a b c d))
unfolding decode_eoip_header
decode_alien a b c d e f g h rest no_match = ground arith

slice_eq-false_ne :
    (a b c d : ℕ) → slice_eq (front a b c d) eoip_magic ≡ false → front a b c d ≢ eoip_magic
slice_eq-false_ne a b c d no_match = ground arith

split_header :
    (a b c d e f g h : ℕ) (rest : List ℕ)
    → All IsByte (a ∷ b ∷ c ∷ d ∷ e ∷ f ∷ g ∷ h ∷ rest)
    → slice_eq (front a b c d) eoip_magic ≡ true
    → a ∷ b ∷ c ∷ d ∷ e ∷ f ∷ g ∷ h ∷ rest ≡ header_bytes (g + h * 256) (e * 256 + f) ++ rest
split_header a b c d e f g h rest bytes same = ground arith

-- On every buffer of bytes decoding gives one of the three answers, so it never panics: a short
-- buffer is reported with its length and the 8 bytes needed, a foreign magic with the four bytes
-- found, and otherwise the buffer is the header of the numbers returned, and some rest.
pub decode_eoip_header-outcome :
    (buf : List ℕ) → All IsByte buf → DecodeOutcome buf (decode_eoip_header buf)
decode_eoip_header-outcome (a ∷ b ∷ c ∷ d ∷ e ∷ f ∷ g ∷ h ∷ rest) bytes =
    elim (Bool-cases (slice_eq (front a b c d) eoip_magic)) [
      | inl same ↦
          let whole = split_header a b c d e f g h rest bytes same in
          subst (λ b. DecodeOutcome b (decode_eoip_header b)) (sym whole)
            (subst (DecodeOutcome _) (sym (decode-header_bytes _ _ rest))
              (DecodeOutcome.header _ _ rest refl))
      | inr other ↦
          subst (DecodeOutcome _) (sym (decode_alien a b c d e f g h rest other))
            (DecodeOutcome.alien (omega arith) (slice_eq-false_ne a b c d other))
    ]
decode_eoip_header-outcome _ bytes = unfold decode_eoip_header in DecodeOutcome.short (omega arith)
