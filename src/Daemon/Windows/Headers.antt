-- ===== src/Daemon/Windows/Headers.antt =====
-- The two headers that a daemon on Windows writes in front of a frame.
use eo_ip_rs.Base.{
  length, take, drop, length-append, take-append-drop, length-take, length-drop, ok, copy_at,
  copy_at-zero, to_be_bytes, ℕ, ◌+◌, ◌≤◌, ◌<◌, ◌≡◌, refl, sym, ap, ◌∙◌, Bool, true, List, [], ◌∷◌,
  ◌++◌, append_assoc, arith,
}
use native.Mathlib.Nat.{mod-eq_of_lt}
use eo_ip_rs.Proto.Types.Addr.{v4}
use eo_ip_rs.Proto.Gre.{encode_eoip_header}
use eo_ip_rs.Proto.Gre.Codec as GreCodec
use eo_ip_rs.Packet.Rx.Layout.{ipv4_packet}
use eo_ip_rs.Daemon.Windows.{build_ip_header, with_headers}

-- The IPv4 header without options of a packet with `total` bytes.
abbrev pub ip_front : (total : ℕ) → List ℕ
ip_front total =
    0x00 ∷ (to_be_bytes total ++ (0x00 ∷ 0x00 ∷ 0x00 ∷ 0x00 ∷ 255 ∷ 47 ∷ 0x00 ∷ 0x00 ∷ []))

copy_at-append : (xs src ys : List ℕ) → copy_at (length xs) src (xs ++ ys) ≡ xs ++ copy_at 0 src ys
copy_at-append [] src ys = refl
copy_at-append (x ∷ xs) src ys = ap (λ t. x ∷ t) (copy_at-append xs src ys)

build_ip_header_lem :
    (total a b c d a' b' c' d' : ℕ) (buf : List ℕ)
    → length buf ≡ 20
    → build_ip_header total 47 (v4 a b c d) (v4 a' b' c' d') buf
      ≡ (0x45 ∷ ip_front total) ++ (a ∷ b ∷ c ∷ d ∷ (a' ∷ b' ∷ c' ∷ d' ∷ []))
unfolding build_ip_header
build_ip_header_lem total a b c d a' b' c' d'
      (x0 ∷ x1 ∷ x2 ∷ x3 ∷ x4 ∷ x5 ∷ x6 ∷ x7 ∷ x8 ∷ x9 ∷ x10 ∷ x11 ∷ x12 ∷ x13 ∷ x14 ∷ x15 ∷ x16
        ∷ x17 ∷ x18 ∷ x19 ∷ [])
      h =
    refl
build_ip_header_lem total a b c d a' b' c' d' buf h = absurd (omega arith)

-- The frame stands behind the room for the two headers.
pub copied_behind :
    (pkt frame : List ℕ)
    → length pkt ≡ 1550
    → length frame ≤ 1522
    → copy_at 28 frame pkt
      ≡ take 20 pkt
        ++ (take 8 (drop 20 pkt) ++ (frame ++ drop (length frame) (drop 8 (drop 20 pkt))))
copied_behind pkt frame size short =
    let ip = take 20 pkt in
    let header = take 8 (drop 20 pkt) in
    let room = drop 8 (drop 20 pkt) in
    let lens = length-drop 20 pkt in
    let size_room : length room ≡ 1522 = omega (arith, length-drop 8 (drop 20 pkt), lens) in
    let front : length (ip ++ header) ≡ 28 =
      omega
        (arith, length-append ip header, length-take 20 pkt, length-take 8 (drop 20 pkt), lens) in
    let shape : pkt ≡ (ip ++ header) ++ room =
      sym (take-append-drop 20 pkt)
      ∙ (ap (λ t. ip ++ t) (sym (take-append-drop 8 (drop 20 pkt)))
          ∙ sym (append_assoc ip header room)) in
    let put = rw front at (copy_at-append (ip ++ header) frame room) in
    ap (copy_at 28 frame) shape
    ∙ (put
        ∙ (append_assoc ip header (copy_at 0 frame room)
            ∙ ap (λ t. ip ++ (header ++ t)) (copy_at-zero frame room (omega arith))))

module _ (send : List ℕ → Bool) (a b c d a' b' c' d' tid : ℕ) where
  pub with_headers_lem :
      (n : ℕ) (ip header payload : List ℕ)
      → length ip ≡ 20
      → length header ≡ 8
      → 28 + n < 65536
      → with_headers send (v4 a b c d) (v4 a' b' c' d') tid n (ip ++ (header ++ payload))
        ≡ ok (
          ipv4_packet 0x45
              (ip_front (28 + n))
              a
              b
              c
              d
              (a' ∷ b' ∷ c' ∷ d' ∷ [])
              (GreCodec.header_bytes tid n ++ payload),
          true,
        )
  unfolding with_headers build_ip_header encode_eoip_header
  with_headers_lem n
        (x0 ∷ x1 ∷ x2 ∷ x3 ∷ x4 ∷ x5 ∷ x6 ∷ x7 ∷ x8 ∷ x9 ∷ x10 ∷ x11 ∷ x12 ∷ x13 ∷ x14 ∷ x15 ∷ x16
          ∷ x17 ∷ x18 ∷ x19 ∷ [])
        (y0 ∷ y1 ∷ y2 ∷ y3 ∷ y4 ∷ y5 ∷ y6 ∷ y7 ∷ []) payload h k small =
      let whole = mod-eq_of_lt {n = 28 + n} {m = 65536} small in
      let part = mod-eq_of_lt {n = n} {m = 65536} (omega arith) in rw (whole, part) refl
  with_headers_lem n
        (x0 ∷ x1 ∷ x2 ∷ x3 ∷ x4 ∷ x5 ∷ x6 ∷ x7 ∷ x8 ∷ x9 ∷ x10 ∷ x11 ∷ x12 ∷ x13 ∷ x14 ∷ x15 ∷ x16
          ∷ x17 ∷ x18 ∷ x19 ∷ [])
        header payload h k small =
      absurd (omega arith)
  with_headers_lem n ip header payload h k small = absurd (omega arith)
