-- ===== src/Packet/Mmap.antt =====
-- crates/eoip-rs/src/packet/packet_mmap.rs: the walk through a block of the ring that is shared with
-- the kernel. A block is what the code reads of it: the fields of its descriptor, the packet header
-- at an offset, and as many bytes as asked for at an offset. Setting the ring up and taking it down
-- are calls of the system, and left out.
pub mod Chain
use eo_ip_rs.Base.{
  ◌==◌, if◌then◌else◌, Result, ok, ◌>>=◌, ℕ, zero, suc, ◌+◌, ◌-◌, ◌%◌, bit_and, Bool, not, Option,
  none, some, List, ◌∷◌,
}

pub record Tpacket3Hdr : Type 0 where
  pub tp_next_offset : ℕ
  pub tp_snaplen : ℕ
  pub tp_mac : ℕ
  pub tp_net : ℕ

pub record Block : Type 0 where
  pub block_status : ℕ
  pub num_pkts : ℕ
  pub offset_to_first_pkt : ℕ
  pub header : ℕ → Tpacket3Hdr
  pub bytes : (offset size : ℕ) → List ℕ

-- The block that comes next, of `block_nr`, and those handed back to the kernel, last first.
pub record PacketMmapRing : Type 0 where
  pub current_block : ℕ
  pub block_nr : ℕ
  pub released : List ℕ

-- The bytes from the network header on. The subtraction wraps as in a release build, as a `usize`.
unfoldable pub data_len : Tpacket3Hdr → ℕ
data_len hdr =
    hdr.tp_snaplen - (hdr.tp_net + 18446744073709551616 - hdr.tp_mac) % 18446744073709551616

-- `TP_STATUS_USER`
unfoldable pub is_ready : Block → Bool
is_ready b = not (bit_and b.block_status 1 == 0)

-- The block to walk through: the current one if it is ready, else what it is after a poll that woke
-- up, if it is ready then.
unfoldable pub ready_block : Block → Option Block → Option Block
unfolding is_ready
ready_block b none = if is_ready b then some b else none
ready_block b (some woken) =
    if is_ready b then some b else if is_ready woken then some woken else none

unfoldable pub release : PacketMmapRing → PacketMmapRing
release ring = record ring {
  released = ring.current_block ∷ ring.released;
  current_block = (ring.current_block + 1) % ring.block_nr;
}

module _ {S E : Type 0} (process_pkt : List ℕ → ℕ → S → Result S E) where
  unfoldable pub process_hdr : Block → ℕ → S → Result S E
  unfolding data_len
  process_hdr b offset s =
      let hdr = b.header offset in
      let size = data_len hdr in
      if size == 0 then ok s else process_pkt (b.bytes (offset + hdr.tp_net) size) size s

  -- At most the given number of packets, from an offset on.
  unfoldable pub walk : Block → ℕ → ℕ → S → Result S E
  unfolding process_hdr
  walk b zero offset s = ok s
  walk b (suc n) offset s =
      let next = (b.header offset).tp_next_offset in
      let rest = walk b n (offset + next) in
      process_hdr b offset s >>= (λ s. if next == 0 then ok s else rest s)

  walked : PacketMmapRing → S → Option Block → Result (PacketMmapRing × S × ℕ) E
  unfolding walk release
  walked ring s none = ok (ring, s, 0)
  walked ring s (some b) = do
    s ← walk b b.num_pkts b.offset_to_first_pkt s
    ok (release ring, s, b.num_pkts)

  unfoldable pub process_block :
      Block → Option Block → PacketMmapRing → S → Result (PacketMmapRing × S × ℕ) E
  unfolding walked ready_block
  process_block b woken ring s = walked ring s (ready_block b woken)
