-- ===== src/Helper/Rawsock/Filter.antt =====
-- Which frames the filter of the AF_PACKET socket lets through.
use eo_ip_rs.Base.{
  ◌==◌, if◌then◌else◌, Option-cases, length, get_elem?, from_be_bytes, ℕ, zero, suc, ◌+◌, ◌*◌, ◌/◌,
  ◌%◌, ◌≤◌, ◌<◌, min, bit_and, ◌≡◌, refl, sym, ap, ◌∙◌, subst, ◌≢◌, ◌↔◌, ◌⊎◌, inl, inr, none, some,
  List, [], ◌∷◌, arith,
}
use Prim.Native.Nat.{digits, bit_and-bitwise}
use native.Mathlib.Nat.{mod-eq_of_lt}
use native.Mathlib.Decide.{ℕ_discrete}
use eo_ip_rs.Helper.Rawsock.{filter, PacketFilter, attached}
use mathlib.Core.Option.{some-injective}

-- Masks of ones at the low end take the remainder.
abbrev Masks : ℕ → Type 0
Masks b = (n a : ℕ) → a ≤ n → digits (λ b. zero) min n a b ≡ a % suc b

Masks-double :
    (b c : ℕ)
    → (c / 2 ≡ b)
    → (c % 2 ≡ 1)
    → ((a : ℕ) → a / 2 % suc b * 2 + a % 2 ≡ a % suc c)
    → Masks b
    → Masks c
Masks-double b c half odd split h zero zero small =
    sym (mod-eq_of_lt {n = 0} {m = suc c} (omega arith))
Masks-double b c half odd split h (suc n) zero small =
    sym (mod-eq_of_lt {n = 0} {m = suc c} (omega arith))
Masks-double b c half odd split h zero (suc a) small = absurd (omega arith)
Masks-double b c half odd split h (suc n) (suc a) small =
    let shorter : suc a / 2 ≤ n = omega arith in
    let high =
      subst (λ t. digits (λ b. 0) min n (suc a / 2) t ≡ suc a / 2 % suc b) (sym half)
        (h n (suc a / 2) shorter) in
    omega (arith, high, odd, split (suc a))

Masks-zero : Masks 0
Masks-zero zero a small = omega arith
Masks-zero (suc n) zero small = omega arith
Masks-zero (suc n) (suc a) small =
    let shorter : suc a / 2 ≤ n = omega arith in omega (arith, Masks-zero n (suc a / 2) shorter)

Masks-seven : Masks 7
Masks-seven =
    Masks-double 3 7 refl refl (λ a. omega arith)
      (Masks-double 1 3 refl refl (λ a. omega arith)
        (Masks-double 0 1 refl refl (λ a. omega arith) Masks-zero))

Masks-255 : Masks 255
Masks-255 =
    Masks-double 127 255 refl refl (λ a. omega arith)
      (Masks-double 63 127 refl refl (λ a. omega arith)
        (Masks-double 31 63 refl refl (λ a. omega arith)
          (Masks-double 15 31 refl refl (λ a. omega arith)
            (Masks-double 7 15 refl refl (λ a. omega arith) Masks-seven))))

Masks-8191 : Masks 8191
Masks-8191 =
    Masks-double 4095 8191 refl refl (λ a. omega arith)
      (Masks-double 2047 4095 refl refl (λ a. omega arith)
        (Masks-double 1023 2047 refl refl (λ a. omega arith)
          (Masks-double 511 1023 refl refl (λ a. omega arith)
            (Masks-double 255 511 refl refl (λ a. omega arith) Masks-255))))

low_thirteen_bits : (n : ℕ) → bit_and n 0x1FFF ≡ n % 8192
low_thirteen_bits n = (λ i. bit_and-bitwise n 0x1FFF i) ∙ Masks-8191 n n (omega arith)

get_elem?-none→le : (xs : List ℕ) (i : ℕ) → get_elem? xs i ≡ none → length xs ≤ i
get_elem?-none→le [] i e = omega arith
get_elem?-none→le (x ∷ xs) zero e = cc
get_elem?-none→le (x ∷ xs) (suc i) e = omega (arith, get_elem?-none→le xs i e)

get_elem?-some→lt : (xs : List ℕ) (i a : ℕ) → get_elem? xs i ≡ some a → i < length xs
get_elem?-some→lt [] i a e = cc
get_elem?-some→lt (x ∷ xs) zero a e = omega arith
get_elem?-some→lt (x ∷ xs) (suc i) a e = omega (arith, get_elem?-some→lt xs i a e)

get_elem?_within : (xs : List ℕ) (i : ℕ) → i < length xs → (a : ℕ) × (get_elem? xs i ≡ some a)
get_elem?_within [] i h = absurd (omega arith)
get_elem?_within (x ∷ xs) zero h = (x, refl)
get_elem?_within (x ∷ xs) (suc i) h = get_elem?_within xs i (omega arith)

-- The fragment offset in the IPv4 header behind the 14 bytes of Ethernet is not 0.
abbrev pub IsContinuation : List ℕ → Type 0
IsContinuation frame =
    (hi lo : ℕ) × (get_elem? frame 20 ≡ some hi)
    × (get_elem? frame 21 ≡ some lo)
    × (24 ≤ length frame)
    × (from_be_bytes hi lo % 8192 ≢ 0)

-- The byte of the protocol says GRE.
abbrev pub IsGre : List ℕ → Type 0
IsGre frame = get_elem? frame 23 ≡ some 47

module _ (m : PacketFilter) (frame : List ℕ) where
  fragment_test :
      (a hi lo : ℕ)
      → get_elem? frame 20 ≡ some hi
      → get_elem? frame 21 ≡ some lo
      → m.bpf_run filter 2 a frame ≡ (if from_be_bytes hi lo % 8192 == 0 then 0 else 65535)
  unfolding filter
  fragment_test a hi lo e f =
      let loaded = m.load_half filter 2 a 0 0 20 hi lo frame refl e f in
      let jumped = m.jump_set filter 3 (from_be_bytes hi lo) 1 0 0x1FFF frame refl in
      let mask = low_thirteen_bits (from_be_bytes hi lo) in
      let dropped = m.return filter 4 (from_be_bytes hi lo) 0 0 0 frame refl in
      let kept = m.return filter 5 (from_be_bytes hi lo) 0 0 0xFFFF frame refl in ground arith

  protocol_test :
      (b : ℕ)
      → get_elem? frame 23 ≡ some b
      → attached m frame ≡ (if b == 47 then 65535 else m.bpf_run filter 2 b frame)
  unfolding attached filter
  protocol_test b e =
      let loaded = m.load_byte filter 0 0 0 0 23 b frame refl e in
      let jumped = m.jump_equal filter 1 b 3 0 47 frame refl in
      let kept = m.return filter 5 b 0 0 0xFFFF frame refl in ground arith

  abbrev Verdict : Type 0
  Verdict =
      ((attached m frame ≡ 65535) ⊎ (attached m frame ≡ 0))
      × ((attached m frame ≡ 65535) ↔ (IsGre frame ⊎ IsContinuation frame))

  accepted : attached m frame ≡ 65535 → IsGre frame ⊎ IsContinuation frame → Verdict
  accepted e passes = (inl e, ((λ kept. passes), λ h. e))

  refused : attached m frame ≡ 0 → ¬ (IsGre frame ⊎ IsContinuation frame) → Verdict
  refused e h = (inr e, ((λ kept. absurd (omega (arith, e, kept))), λ passes. absurd (h passes)))

  verdict_short : get_elem? frame 23 ≡ none → Verdict
  unfolding attached filter
  verdict_short e =
      let dropped = m.load_byte_behind filter 0 0 0 0 23 frame refl e in
      let short = get_elem?-none→le frame 23 e in
      refused dropped λ passes. elim passes [
        | inl gre ↦ cc
        | inr (hi, lo, e20, e21, long, offset) ↦ absurd (omega (arith, short, long))
      ]

  verdict_long :
      (hi lo p : ℕ)
      → get_elem? frame 20 ≡ some hi
      → get_elem? frame 21 ≡ some lo
      → get_elem? frame 23 ≡ some p
      → Verdict
  verdict_long hi lo p e f g =
      let long = get_elem?-some→lt frame 23 p g in
      let first = protocol_test p g in
      let second = fragment_test p hi lo e f in
      elim (ℕ_discrete p 47) [
        | yes gre ↦ accepted (ground arith) (inl (g ∙ ap some gre))
        | no other ↦ elim (ℕ_discrete (from_be_bytes hi lo % 8192) 0) [
          | yes whole ↦ refused (ground arith) λ passes. elim passes [
            | inl gre ↦ absurd (other (some-injective _ _ (sym g ∙ gre)))
            | inr (hi', lo', e', f', long', offset) ↦
                let same_hi = some-injective _ _ (sym e ∙ e') in
                let same_lo = some-injective _ _ (sym f ∙ f') in absurd (ground arith)
          ]
          | no offset ↦ accepted (ground arith) (inr (hi, lo, e, f, omega arith, offset))
        ]
      ]

-- Any machine keeps 65535 bytes of a frame or none: 65535 exactly if the byte at 23 is that of GRE,
-- or the frame has 24 bytes and a fragment offset that is not 0, whatever its protocol.
pub attached_iff :
    (m : PacketFilter) (frame : List ℕ)
    → ((attached m frame ≡ 65535) ⊎ (attached m frame ≡ 0))
      × ((attached m frame ≡ 65535) ↔ (IsGre frame ⊎ IsContinuation frame))
attached_iff m frame = elim (Option-cases (get_elem? frame 23)) [
  | inl e ↦ verdict_short m frame e
  | inr (p, g) ↦
      let long = get_elem?-some→lt frame 23 p g in
      let (hi, e) = get_elem?_within frame 20 (omega arith) in
      let (lo, f) = get_elem?_within frame 21 (omega arith) in verdict_long m frame hi lo p e f g
]
