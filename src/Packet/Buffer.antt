-- ===== src/Packet/Buffer.antt =====
-- `PacketBuf` of crates/eoip-rs/src/packet/buffer.rs. `bytes` is the box behind `data`, `pooled`
-- whether `pool` is set; `detached` is the state after `data.take()`. A method that slices the box
-- panics where the range leaves it, and `unwrap` on a taken box panics.
pub mod View
use eo_ip_rs.Base.{
  ltb, ◌==◌, if◌then◌else◌, length, replicate, Result, ok, panic, ◌>>=◌, slice, copy_at, ℕ, ◌+◌,
  ◌-◌, Bool, false, ◌||◌, Option, none, some, List,
}

abbrev pub header_headroom : ℕ
header_headroom = 64

abbrev pub max_frame_size : ℕ
max_frame_size = 1522

abbrev pub buf_total : ℕ
buf_total = 1586

pub record PacketBuf : Type 0 where
  pub bytes : Option (List ℕ)
  pub head : ℕ
  pub len : ℕ
  pub pooled : Bool

unfoldable pub new : PacketBuf
new = record {
  bytes = some (replicate buf_total 0);
  head = header_headroom;
  len = 0;
  pooled = false;
}

unfoldable pub set_len : ℕ → PacketBuf → PacketBuf
set_len len b = record b { head = header_headroom; len = len }

unfoldable pub reset : PacketBuf → PacketBuf
reset b = record b { head = header_headroom; len = 0 }

unfoldable pub is_empty : PacketBuf → Bool
is_empty b = b.len == 0

-- `self.data.as_ref().unwrap()`
unwrap : {E : Type 0} → Option (List ℕ) → Result (List ℕ) E
unwrap (some bytes) = ok bytes
unwrap none = panic

-- A write of `src` at the front of the slice that `payload_mut` hands out, which holds
-- `max_frame_size` bytes.
unfoldable pub write_payload : {E : Type 0} → List ℕ → PacketBuf → Result PacketBuf E
unfolding unwrap
write_payload src b = do
  bytes ← unwrap b.bytes
  if ltb (length bytes) (header_headroom + max_frame_size) || ltb max_frame_size (length src)
      then panic
      else ok (record b { bytes = some (copy_at header_headroom src bytes) })

-- The buffer with its head moved back, and the slice in front that is returned for writing.
-- `self.head -= header_len` below 0, or a slice past the end, panics.
unfoldable pub prepend_header : {E : Type 0} → ℕ → PacketBuf → Result (PacketBuf × List ℕ) E
unfolding unwrap
prepend_header header_len b = do
  bytes ← unwrap b.bytes
  if ltb b.head header_len then panic else (do
    header ← slice bytes (b.head - header_len) b.head
    ok (record b { head = b.head - header_len; len = b.len + header_len }, header))

-- What the caller of `prepend_header` writes through the slice: bytes from the head on.
unfoldable pub write_header : {E : Type 0} → List ℕ → PacketBuf → Result PacketBuf E
unfolding unwrap
write_header header b = do
  bytes ← unwrap b.bytes
  ok (record b { bytes = some (copy_at b.head header bytes) })

unfoldable pub as_slice : {E : Type 0} → PacketBuf → Result (List ℕ) E
unfolding unwrap
as_slice b = do bytes ← unwrap b.bytes; slice bytes b.head (b.head + b.len)
