-- ===== src/Packet/Rx.antt =====
-- crates/eoip-rs/src/packet/rx.rs: what becomes of one received packet. The three packages that it
-- calls are parameters: the queue of the pool, the map of the registry, and the channel to the
-- writer of a tunnel. The two clocks are arguments. The atomic statics and the thread's cached time
-- are fields of the state; the sockets and log lines are left out.
pub mod Layout
pub mod Delivery
pub mod Total
pub mod Clock
pub mod Loops
use eo_ip_rs.Base.{
  ltb, ◌==◌, if◌then◌else◌, length, take, Result, ok, err, panic, ◌>>=◌, index, slice_to,
  slice_from, slice, add_u64, ℕ, ◌+◌, ◌-◌, ◌*◌, ◌%◌, min, bit_and, ◌≡◌, Bool, true, false, ◌||◌,
  Option, none, some, List, [], ◌∷◌, ◌++◌,
}
use eo_ip_rs.Proto.Error.{EoipError}
use eo_ip_rs.Proto.Types.{DemuxKey}
use eo_ip_rs.Proto.Types.Addr.{IpAddr, v4}
use eo_ip_rs.Proto.Gre.{decode_eoip_header, eoip_header_len}
use eo_ip_rs.Proto.Etherip.{decode_eoipv6_header}
use eo_ip_rs.Packet.Buffer.{PacketBuf, max_frame_size, write_payload, set_len}
use eo_ip_rs.Packet.Pool
use eo_ip_rs.Packet.Pool.{ArrayQueue, BufferPool}
use eo_ip_rs.Tunnel.Handle.{Store, put}
use eo_ip_rs.Tunnel.Registry
use eo_ip_rs.Tunnel.Registry.{DashMap}

-- A bounded channel, by what `try_send` does: it takes the item, behind those taken before, or
-- refuses it and leaves the channel as it was.
pub record Channel (A : Type 0) : Type 1 where
  pub Sender : Type 0
  pub sent : Sender → List A
  pub try_send : A → Sender → Sender × Bool
  pub try_send_taken :
      (a : A) (tx : Sender) → (try_send a tx).1 ≡ true → sent (try_send a tx).0 ≡ sent tx ++ a ∷ []
  pub try_send_refused : (a : A) (tx : Sender) → (try_send a tx).1 ≡ false → (try_send a tx).0 ≡ tx

-- The thread's cache of `coarse_timestamp_ms`.
pub record CachedTime : Type 0 where
  pub count : ℕ
  pub ts : ℕ

-- The clock `now` is read on every 64th call only.
unfoldable pub coarse_timestamp_ms : ℕ → CachedTime → CachedTime × ℕ
coarse_timestamp_ms now c =
    if c.count % 64 == 0
    then (record { count = add_u64 c.count 1; ts = now }, now)
    else (record { count = add_u64 c.count 1; ts = c.ts }, c.ts)

-- The statics `LAST_MISS_LOG` and `MISS_COUNT`, and the counts that were logged, last first.
pub record MissLog : Type 0 where
  pub last_miss_log : ℕ
  pub miss_count : ℕ
  pub logged : List ℕ

-- `elapsed` is the time since the first miss, from which the difference wraps as a `u64`. The call is
-- one step: no other thread moves `LAST_MISS_LOG` between its load and the exchange.
unfoldable pub log_demux_miss : ℕ → MissLog → MissLog
log_demux_miss elapsed m =
    let count = m.miss_count in
    if ltb 1000 ((elapsed + 18446744073709551616 - m.last_miss_log) % 18446744073709551616)
    then record { last_miss_log = elapsed; miss_count = 0; logged = count ∷ m.logged }
    else record m { miss_count = add_u64 count 1 }

module _ (q : ArrayQueue PacketBuf) (d : DashMap DemuxKey ℕ) (c : Channel PacketBuf) where
  pub record RxState : Type 0 where
    pub pool : BufferPool q
    pub handles : Store c.Sender
    pub time : CachedTime
    pub misses : MissLog

  missed : ℕ → RxState → RxState
  missed elapsed s = record s { misses = log_demux_miss elapsed s.misses }

  -- `rx_packets`, `rx_bytes` and `last_rx_timestamp` of the handle at `p`.
  count_rx : ℕ → ℕ → ℕ → RxState → RxState
  count_rx now p size s =
      let h = s.handles p in
      let (time, stamp) = coarse_timestamp_ms now s.time in
      let stats = record h.stats {
        rx_packets = add_u64 h.stats.rx_packets 1;
        rx_bytes = add_u64 h.stats.rx_bytes size;
        last_rx_timestamp = stamp;
      } in
      record s { handles = put p (record h { stats = stats }) s.handles; time = time }

  -- What follows `try_send`: a refused buffer is dropped and counted.
  sent_or_dropped : ℕ → PacketBuf → c.Sender × Bool → RxState → RxState
  sent_or_dropped p pbuf (tx, true) s =
      let h = s.handles p in
      record s { handles = put p (record h { rx_channel = some tx }) s.handles }
  sent_or_dropped p pbuf (tx, false) s =
      let h = s.handles p in
      let stats = record h.stats { rx_errors = add_u64 h.stats.rx_errors 1 } in
      record s {
        handles = put p (record h { stats = stats; rx_channel = some tx }) s.handles;
        pool = Pool.drop_buf q pbuf s.pool;
      }

  -- The frame, cut to what a buffer holds, goes to the tunnel's writer.
  forward : ℕ → List ℕ → RxState → Option c.Sender → Result RxState EoipError
  forward p frame s none = ok s
  forward p frame s (some tx) = do
    let (pool, pbuf) = Pool.get q s.pool
    let copy_len = min (length frame) max_frame_size
    pbuf ← write_payload (take copy_len frame) pbuf
    let pbuf = set_len copy_len pbuf
    ok (sent_or_dropped p pbuf (c.try_send pbuf tx) (record s { pool = pool }))

  found_v4 : ℕ → ℕ → List ℕ → ℕ → RxState → Option ℕ → Result RxState EoipError
  unfolding missed count_rx forward sent_or_dropped
  found_v4 now elapsed frame_data payload_len s none = ok (missed elapsed s)
  found_v4 now elapsed frame_data payload_len s (some p) =
      let counted = count_rx now p (length frame_data) s in
      if payload_len == 0 || length frame_data == 0
      then ok counted
      else forward p frame_data counted (counted.handles p).rx_channel

  decoded_v4 :
      ℕ
      → ℕ
      → d.Map
      → IpAddr
      → List ℕ
      → RxState
      → Result (ℕ × ℕ × ℕ) EoipError
      → Result RxState EoipError
  unfolding found_v4
  decoded_v4 now elapsed registry src_ip eoip_data s panic = panic
  decoded_v4 now elapsed registry src_ip eoip_data s (err e) = ok s
  decoded_v4 now elapsed registry src_ip eoip_data s (ok (tunnel_id, payload_len, hdr_len)) = do
    let key : DemuxKey = record { tunnel_id = tunnel_id; peer_addr = src_ip }
    frame_data ← slice_from eoip_data hdr_len
    found_v4 now elapsed frame_data payload_len s (Registry.get d key registry)

  -- The first `n` bytes of `buf` are the packet, from its IPv4 header on.
  unfoldable pub process_v4_packet : ℕ → ℕ → d.Map → List ℕ → ℕ → RxState → Result RxState EoipError
  unfolding decoded_v4
  process_v4_packet now elapsed registry buf n s = if ltb n 20 then ok s else (do
    b0 ← index buf 0
    let ip_hdr_len = bit_and b0 0x0F * 4
    if ltb n (ip_hdr_len + eoip_header_len) then ok s else (do
      o1 ← index buf 12
      o2 ← index buf 13
      o3 ← index buf 14
      o4 ← index buf 15
      eoip_data ← slice buf ip_hdr_len n
      decoded_v4 now elapsed registry (v4 o1 o2 o3 o4) eoip_data s (decode_eoip_header eoip_data)))

  found_v6 : ℕ → ℕ → List ℕ → RxState → Option ℕ → Result RxState EoipError
  unfolding missed count_rx forward sent_or_dropped
  found_v6 now elapsed frame_data s none = ok (missed elapsed s)
  found_v6 now elapsed frame_data s (some p) =
      let counted = count_rx now p (length frame_data) s in
      if length frame_data == 0
      then ok counted
      else forward p frame_data counted (counted.handles p).rx_channel

  decoded_v6 :
      ℕ
      → ℕ
      → d.Map
      → IpAddr
      → List ℕ
      → ℕ
      → RxState
      → Result (ℕ × ℕ) EoipError
      → Result RxState EoipError
  unfolding found_v6
  decoded_v6 now elapsed registry src_ip buf n s panic = panic
  decoded_v6 now elapsed registry src_ip buf n s (err e) = ok s
  decoded_v6 now elapsed registry src_ip buf n s (ok (tunnel_id, hdr_len)) = do
    let key : DemuxKey = record { tunnel_id = tunnel_id; peer_addr = src_ip }
    frame_data ← slice buf hdr_len n
    found_v6 now elapsed frame_data s (Registry.get d key registry)

  -- The kernel takes the IPv6 header off, and gives the source address apart.
  unfoldable pub process_v6_packet :
      ℕ → ℕ → d.Map → List ℕ → ℕ → IpAddr → RxState → Result RxState EoipError
  unfolding decoded_v6
  process_v6_packet now elapsed registry buf n src_ip s = if ltb n 2 then ok s else (do
    packet ← slice_to buf n
    decoded_v6 now elapsed registry src_ip buf n s (decode_eoipv6_header packet))
