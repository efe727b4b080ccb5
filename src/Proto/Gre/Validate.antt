-- ===== src/Proto/Gre/Validate.antt =====
-- Validation of whole EoIP packets.
use eo_ip_rs.Base.{
  length, All, Result, ok, >>=-eq-ok, IsByte, ℕ, ◌+◌, ◌≤◌, ◌≡◌, ap, ◌∙◌, ◌↔◌, ◌⊎◌, List, ◌++◌,
  arith,
}
use eo_ip_rs.Proto.Error.{EoipError}
use eo_ip_rs.Proto.Gre.{decode_eoip_header, validate_eoip_packet}
use eo_ip_rs.Proto.Gre.Codec.{header_bytes, decode-header_bytes, length-header_bytes}
use eo_ip_rs.Proto.Gre.Outcomes.{DecodeOutcome, short, alien, header, decode_eoip_header-outcome}

-- A packet as the protocol describes it: a header of `u16`s, a payload length that is 0 (a keepalive)
-- or holds an Ethernet header, and room for the payload both in the IP payload and in the buffer.
pub record IsEoipPacket (buf : List ℕ) (ip_payload_len tid plen : ℕ) (rest : List ℕ) : Type 0 where
  pub shape : buf ≡ header_bytes tid plen ++ rest
  pub payload : (plen ≡ 0) ⊎ (14 ≤ plen)
  pub fits_ip : plen + 8 ≤ ip_payload_len
  pub present : plen ≤ length rest

-- What validation does once the header is decoded.
pub validate_decoded :
    (buf : List ℕ) (n tid plen hdr : ℕ)
    → decode_eoip_header buf ≡ ok (tid, plen, hdr)
    → (validate_eoip_packet buf n ≡ ok tt)
      ↔ (((plen ≡ 0) ⊎ (14 ≤ plen)) × (plen + 8 ≤ n) × (plen + 8 ≤ length buf))
unfolding validate_eoip_packet
validate_decoded buf n tid plen hdr dec = (λ v. ground arith, λ v. ground arith)

decoded_shape :
    {buf : List ℕ} {r : Result (ℕ × ℕ × ℕ) EoipError} (tid plen hdr : ℕ)
    → DecodeOutcome buf r
    → r ≡ ok (tid, plen, hdr)
    → (rest : List ℕ) × (buf ≡ header_bytes tid plen ++ rest)
decoded_shape tid plen hdr (short h) e = cc
decoded_shape tid plen hdr (alien h k) e = cc
decoded_shape tid plen hdr (header t p rest shape) e = (rest, ground arith)

validated_decodes :
    (buf : List ℕ) (n : ℕ)
    → validate_eoip_packet buf n ≡ ok tt
    → (d : ℕ × ℕ × ℕ) × (decode_eoip_header buf ≡ ok d)
unfolding validate_eoip_packet
validated_decodes buf n v = let (d, dec, after) = >>=-eq-ok (decode_eoip_header buf) _ v in (d, dec)

-- On a buffer of bytes, validation succeeds exactly on the packets of the protocol.
pub validate_eoip_packet_iff :
    (buf : List ℕ) (n : ℕ)
    → All IsByte buf
    → (validate_eoip_packet buf n ≡ ok tt)
      ↔ ((tid : ℕ) × (plen : ℕ) × (rest : List ℕ) × IsEoipPacket buf n tid plen rest)
validate_eoip_packet_iff buf n bytes = (there, back)
  where
    there :
        validate_eoip_packet buf n ≡ ok tt
        → (tid : ℕ) × (plen : ℕ) × (rest : List ℕ) × IsEoipPacket buf n tid plen rest
    there v =
        let ((tid, plen, hdr), dec) = validated_decodes buf n v in
        let (rest, shape) = decoded_shape tid plen hdr (decode_eoip_header-outcome buf bytes) dec in
        let (payload, fits, room) = (validate_decoded buf n tid plen hdr dec).0 v in
        let size : length buf ≡ 8 + length rest =
          ap length shape ∙ length-header_bytes tid plen rest in
        (
          tid,
          plen,
          rest,
          record { shape = shape; payload = payload; fits_ip = fits; present = omega arith },
        )

    back :
        ((tid : ℕ) × (plen : ℕ) × (rest : List ℕ) × IsEoipPacket buf n tid plen rest)
        → validate_eoip_packet buf n ≡ ok tt
    back (tid, plen, rest, p) =
        let size : length buf ≡ 8 + length rest =
          ap length p.shape ∙ length-header_bytes tid plen rest in
        let dec : decode_eoip_header buf ≡ ok (tid, plen, 8) =
          rw p.shape (decode-header_bytes tid plen rest) in
        (validate_decoded buf n tid plen 8 dec).1 (p.payload, p.fits_ip, omega (arith, p.present))
