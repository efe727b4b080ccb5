-- ===== src/Packet/Rx/Layout.antt =====
-- Where the parts of a received packet stand in the buffer.
use eo_ip_rs.Base.{
  length, length-append, take-append_length, ok, index, slice_to, slice, slice_to_lem, ℕ, ◌+◌, ◌≡◌,
  refl, sym, ap, ◌∙◌, subst, List, [], ◌∷◌, ◌++◌, append_assoc, arith,
}
use native.Mathlib.Nat.{suc-add, zero-add}
use eo_ip_rs.Proto.Error.{EoipError}

pub slice_to_front : (xs ys : List ℕ) → slice_to {E = EoipError} (xs ++ ys) (length xs) ≡ ok xs
slice_to_front xs ys =
    slice_to_lem {E = EoipError} (xs ++ ys) (length xs) (omega (arith, length-append xs ys))
    ∙ ap ok (take-append_length xs ys)

index-append :
    (xs ys : List ℕ) (i : ℕ)
    → index {E = EoipError} (xs ++ ys) (length xs + i) ≡ index {E = EoipError} ys i
index-append [] ys i = rw zero-add refl
index-append (x ∷ xs) ys i = rw suc-add (index-append xs ys i)

slice_behind :
    (xs ys zs : List ℕ)
    → slice {E = EoipError} (xs ++ (ys ++ zs)) (length xs) (length xs + length ys) ≡ ok ys
slice_behind [] ys zs = rw zero-add (slice_to_front ys zs)
slice_behind (x ∷ xs) ys zs = rw suc-add (slice_behind xs ys zs)

-- An IPv4 packet as the raw socket delivers it: the header's first byte, eleven more, the source
-- address, the destination with the options, and the payload.
abbrev pub ipv4_packet : ℕ → List ℕ → (a b c d : ℕ) → List ℕ → List ℕ → List ℕ
ipv4_packet b0 front a b c d back payload = (b0 ∷ front) ++ (a ∷ b ∷ c ∷ d ∷ (back ++ payload))

pub index_source :
    (b0 : ℕ) (front tail : List ℕ) (i : ℕ)
    → length front ≡ 11
    → index {E = EoipError} ((b0 ∷ front) ++ tail) (12 + i) ≡ index {E = EoipError} tail i
index_source b0 front tail i eleven =
    let size : length (b0 ∷ front) + i ≡ 12 + i = omega arith in
    subst (λ k. index {E = EoipError} ((b0 ∷ front) ++ tail) k ≡ index {E = EoipError} tail i) size
      (index-append (b0 ∷ front) tail i)

pub slice_cut :
    (buf xs ys zs : List ℕ) (lo hi : ℕ)
    → buf ≡ xs ++ (ys ++ zs)
    → lo ≡ length xs
    → hi ≡ length xs + length ys
    → slice {E = EoipError} buf lo hi ≡ ok ys
slice_cut buf xs ys zs lo hi shape start end = rw (shape, start, end) (slice_behind xs ys zs)

pub slice_payload :
    (b0 a b c d : ℕ) (front back ys zs : List ℕ) (hi : ℕ)
    → length front ≡ 11
    → hi ≡ 16 + length back + length ys
    → slice {E = EoipError} (ipv4_packet b0 front a b c d back (ys ++ zs)) (16 + length back) hi
      ≡ ok ys
slice_payload b0 a b c d front back ys zs hi eleven end =
    let header = (b0 ∷ front) ++ (a ∷ b ∷ c ∷ d ∷ back) in
    let size : length header ≡ 16 + length back =
      omega (arith, length-append (b0 ∷ front) (a ∷ b ∷ c ∷ d ∷ back)) in
    slice_cut (ipv4_packet b0 front a b c d back (ys ++ zs)) header ys zs (16 + length back) hi
      (sym (append_assoc (b0 ∷ front) (a ∷ b ∷ c ∷ d ∷ back) (ys ++ zs))) (sym size) (omega arith)
