-- ===== src/Packet/Rx/Loops.antt =====
-- The receive loops of crates/eoip-rs/src/packet/rx.rs and the threads that run them. A loop goes
-- through a list of its turns, each with what the token and the system call said in it: its state
-- after them is the one it has then, whether it has ended or waits for more.

pub mod Agree
use eo_ip_rs.Base.{
  leb, if◌then◌else◌, get_elem?, Result, ok, ◌>>=◌, slice_from, Text, codes, show_nat, ℕ, zero, suc,
  ◌+◌, ◌-◌, max, Option, none, some, List, [], ◌∷◌, ◌++◌,
}
use eo_ip_rs.Proto.Error.{EoipError}
use eo_ip_rs.Proto.Types.{DemuxKey}
use eo_ip_rs.Proto.Types.Addr.{IpAddr}
use eo_ip_rs.Packet.Buffer.{PacketBuf}
use eo_ip_rs.Packet.Pool.{ArrayQueue}
use eo_ip_rs.Tunnel.Registry.{DashMap}
use eo_ip_rs.Packet.Rx.{Channel, RxState, process_v4_packet, process_v6_packet}
use eo_ip_rs.Packet.Mmap.{Block, PacketMmapRing, process_block}

-- One turn. `again` is a call that was interrupted or would block, `broken` any other error.
pub data Turn (A : Type 0) : Type 0 where
  cancelled again broken : Turn A
  received : A → Turn A

-- What `recvmmsg` said when it was tried with one buffer and without waiting: that it is not
-- supported, nothing (any other error), or a packet.
pub data Probe (A : Type 0) : Type 0 where
  unsupported idle : Probe A
  took : A → Probe A

module _ {A S E : Type 0} (process : A → S → Result S E) where
  -- `for i in 0..count`
  unfoldable pub process_all : List A → S → Result S E
  process_all [] s = ok s
  process_all (a ∷ arrivals) s = process a s >>= process_all arrivals

  -- One packet to a turn.
  unfoldable pub single_loop : List (Turn A) → S → Result S E
  single_loop [] s = ok s
  single_loop (cancelled ∷ turns) s = ok s
  single_loop (again ∷ turns) s = single_loop turns s
  single_loop (broken ∷ turns) s = ok s
  single_loop (received a ∷ turns) s = process a s >>= single_loop turns

  -- Up to `RECV_BATCH` packets to a turn.
  unfoldable pub batch_loop : List (Turn (List A)) → S → Result S E
  unfolding process_all
  batch_loop [] s = ok s
  batch_loop (cancelled ∷ turns) s = ok s
  batch_loop (again ∷ turns) s = batch_loop turns s
  batch_loop (broken ∷ turns) s = ok s
  batch_loop (received batch ∷ turns) s = process_all batch s >>= batch_loop turns

  -- The loop by `recvmmsg` where it is supported, else the other. The packet that the probe may have
  -- taken is not processed.
  unfoldable pub probed_loop : Probe A → List (Turn (List A)) → List (Turn A) → S → Result S E
  unfolding single_loop batch_loop
  probed_loop unsupported batches singles s = single_loop singles s
  probed_loop idle batches singles s = batch_loop batches s
  probed_loop (took a) batches singles s = batch_loop batches s

module _ (q : ArrayQueue PacketBuf) (d : DashMap DemuxKey ℕ) (c : Channel PacketBuf) where
  abbrev Step : Type 0
  Step = RxState q d c → Result (RxState q d c) EoipError

  -- A buffer with the number of bytes received into it, and the registry and the clocks at that time.
  pub record Arrival : Type 0 where
    pub buf : List ℕ
    pub size : ℕ
    pub registry : d.Map
    pub now : ℕ
    pub elapsed : ℕ

  unfoldable pub process_v4 : Arrival → Step
  unfolding process_v4_packet
  process_v4 a s = process_v4_packet q d c a.now a.elapsed a.registry a.buf a.size s

  unfoldable pub process_v6 : Arrival × IpAddr → Step
  unfolding process_v6_packet
  process_v6 (a, src_ip) s =
      process_v6_packet q d c a.now a.elapsed a.registry a.buf a.size src_ip s

  -- A packet with its Ethernet header.
  unfoldable pub process_framed : Arrival → Step
  unfolding process_v4
  process_framed a s = if leb a.size 14 then ok s else (do
    ip_data ← slice_from a.buf 14
    process_v4 (record a { buf = ip_data; size = a.size - 14 }) s)

  unfoldable pub rx_loop_v4 :
      Probe Arrival → List (Turn (List Arrival)) → List (Turn Arrival) → Step
  unfolding probed_loop process_v4
  rx_loop_v4 probe batches singles s = probed_loop process_v4 probe batches singles s

  unfoldable pub rx_loop_v4_afpacket : List (Turn (List Arrival)) → Step
  unfolding batch_loop process_framed
  rx_loop_v4_afpacket batches s = batch_loop process_framed batches s

  unfoldable pub rx_loop_v6 :
      Probe (Arrival × IpAddr)
      → List (Turn (List (Arrival × IpAddr)))
      → List (Turn (Arrival × IpAddr))
      → Step
  unfolding probed_loop process_v6
  rx_loop_v6 probe batches singles s = probed_loop process_v6 probe batches singles s

-- What a thread runs, on which socket.
pub data Loop : Type 0 where
  on_ring on_raw_v4 on_raw_v6 : (fd : ℕ) → Loop

-- A thread, with the core that it is pinned to.
pub record Worker : Type 0 where
  pub name : Text
  pub cpu : Option ℕ
  pub loop : Loop

last : List ℕ → Option ℕ
last [] = none
last (cpu ∷ []) = some cpu
last (cpu ∷ next ∷ cpus) = last (next ∷ cpus)

-- The workers from the `i`-th on.
workers_from : ℕ → List ℕ → ℕ → ℕ → List Worker
workers_from fd cpu_affinity i zero = []
workers_from fd cpu_affinity i (suc n) =
    record {
      name = codes "rx-v4-" ++ show_nat i;
      cpu = get_elem? cpu_affinity i;
      loop = on_raw_v4 fd;
    }
    ∷ workers_from fd cpu_affinity (i + 1) n

-- The threads for IPv4.
v4_threads : Option ℕ → Option ℕ → ℕ → List ℕ → List Worker
unfolding workers_from
v4_threads raw (some fd) rx_workers cpu_affinity =
    record { name = codes "rx-v4-afp"; cpu = get_elem? cpu_affinity 0; loop = on_ring fd } ∷ []
v4_threads (some fd) none rx_workers cpu_affinity =
    workers_from fd cpu_affinity 0 (max rx_workers 1)
v4_threads none none rx_workers cpu_affinity = []

v6_thread : Option ℕ → List ℕ → List Worker
unfolding last
v6_thread none cpu_affinity = []
v6_thread (some fd) cpu_affinity =
    record { name = codes "rx-v6"; cpu = last cpu_affinity; loop = on_raw_v6 fd } ∷ []

unfoldable pub start_rx_pipeline :
    (raw_v4 raw_v6 af_packet_v4 : Option ℕ) → ℕ → List ℕ → List Worker
unfolding v4_threads v6_thread
start_rx_pipeline raw_v4 raw_v6 af_packet_v4 rx_workers cpu_affinity =
    v4_threads raw_v4 af_packet_v4 rx_workers cpu_affinity ++ v6_thread raw_v6 cpu_affinity

-- The registry and the clocks when a packet is processed.
pub record Moment (d : DashMap DemuxKey ℕ) : Type 0 where
  pub registry : d.Map
  pub now : ℕ
  pub elapsed : ℕ

module _ (q : ArrayQueue PacketBuf) (d : DashMap DemuxKey ℕ) (c : Channel PacketBuf)
    (moments : ℕ → Moment d) where
  -- The state, with the number of packets processed before.
  abbrev pub Counted : Type 0
  Counted = ℕ × RxState q d c

  -- The callback of the ring.
  unfoldable pub process_next : List ℕ → ℕ → Counted → Result Counted EoipError
  unfolding process_v4_packet
  process_next ip_data size (k, s) = do
    let m = moments k
    s ← process_v4_packet q d c m.now m.elapsed m.registry ip_data size s
    ok (k + 1, s)

  -- A turn is the current block, and what it is after the poll if that woke up; `none` is a token
  -- that is cancelled.
  unfoldable pub ring_loop :
      List (Option (Block × Option Block)) → PacketMmapRing → Counted → Result Counted EoipError
  unfolding process_block process_next
  ring_loop [] ring s = ok s
  ring_loop (none ∷ turns) ring s = ok s
  ring_loop (some (b, woken) ∷ turns) ring s = do
    (ring, s, n) ← process_block process_next b woken ring s
    ring_loop turns ring s

  -- Where the ring cannot be set up, the loop returns.
  unfoldable pub rx_loop_v4_mmap :
      Option PacketMmapRing
      → List (Option (Block × Option Block))
      → Counted
      → Result Counted EoipError
  unfolding ring_loop
  rx_loop_v4_mmap none turns s = ok s
  rx_loop_v4_mmap (some ring) turns s = ring_loop turns ring s
