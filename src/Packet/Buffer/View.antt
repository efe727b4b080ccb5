-- ===== src/Packet/Buffer/View.antt =====
-- What a buffer shows after a read and a header: the bytes written, with no copy of the payload.
use eo_ip_rs.Base.{
  le→not_ltb, length, take, drop, length-append, take-append_length, ok, slice_lem, copy_at,
  length-copy_at, drop-copy_at, ℕ, ◌+◌, ◌-◌, ◌≤◌, ◌≡◌, sym, ap, ◌∙◌, some, List, ◌++◌, append_assoc,
  arith,
}
use eo_ip_rs.Packet.Buffer.{PacketBuf, write_payload, as_slice, max_frame_size, buf_total}

-- A buffer that owns its box of `buf_total` bytes.
pub record IsOwned (b : PacketBuf) (bytes : List ℕ) : Type 0 where
  pub owned : b.bytes ≡ some bytes
  pub size : length bytes ≡ buf_total

module _ {E : Type 0} (b : PacketBuf) (bytes frame : List ℕ) (ready : IsOwned b bytes)
    (short : length frame ≤ max_frame_size) where
  -- The frame stands behind the headroom.
  pub write_payload_lem :
      write_payload {E = E} frame b ≡ ok (record b { bytes = some (copy_at 64 frame bytes) })
  unfolding write_payload
  write_payload_lem = rw ready.owned (rw (ready.size, le→not_ltb _ _ short))

abbrev pub filled : PacketBuf → List ℕ → List ℕ → PacketBuf
filled b bytes frame = record b {
  bytes = some (copy_at 64 frame bytes);
  head = 64;
  len = length frame;
}

-- A slice of `ys` that follows `xs`.
take_two : (xs ys zs : List ℕ) → take (length ys + length xs) (xs ++ (ys ++ zs)) ≡ xs ++ ys
take_two xs ys zs =
    let regroup : xs ++ (ys ++ zs) ≡ (xs ++ ys) ++ zs = sym (append_assoc xs ys zs) in
    let size : length ys + length xs ≡ length (xs ++ ys) = omega (arith, length-append xs ys) in
    rw (size, regroup) (take-append_length (xs ++ ys) zs)

-- With a frame behind the headroom and a header copied in front of it, the buffer shows both.
pub as_slice_header_frame :
    {E : Type 0} (b : PacketBuf) (bytes header frame : List ℕ)
    → length bytes ≡ buf_total
    → length header ≤ 64
    → length frame ≤ max_frame_size
    → b.bytes ≡ some (copy_at (64 - length header) header (copy_at 64 frame bytes))
    → b.head ≡ 64 - length header
    → b.len ≡ length frame + length header
    → as_slice {E = E} b ≡ ok (header ++ frame)
unfolding as_slice
as_slice_header_frame {E} b bytes header frame size small short hb hh hl =
    let start = 64 - length header in
    let inner = copy_at 64 frame bytes in
    let outer = copy_at start header inner in
    let inner_size = length-copy_at 64 frame bytes in
    let outer_size = length-copy_at start header inner in
    let behind : start + length header ≡ 64 = omega arith in
    let cut : drop start outer ≡ header ++ (frame ++ drop (64 + length frame) bytes) =
      drop-copy_at start header inner (omega arith)
      ∙ rw behind (ap (λ t. header ++ t) (drop-copy_at 64 frame bytes (omega arith))) in
    let span : start + (length frame + length header) - start ≡ length frame + length header =
      omega arith in
    rw (hb, hh, hl)
      (slice_lem {E = E} outer start (start + (length frame + length header)) (omega arith)
          (omega arith)
        ∙ rw (span, cut) (ap ok (take_two header frame _)))
