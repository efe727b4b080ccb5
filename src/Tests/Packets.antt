-- ===== src/Tests/Packets.antt =====
-- Packets through the pool, the encoder, the batcher and the receivers.
use eo_ip_rs.Base.{
  length, replicate, All, ok, ℕ, ◌+◌, ◌-◌, ◌≤◌, ◌≡◌, refl, true, false, some, List, [], ◌∷◌, ◌++◌,
  arith,
}
use eo_ip_rs.Proto.Types.{DemuxKey, DemuxKey-discrete}
use eo_ip_rs.Proto.Gre.Codec as GreCodec
use eo_ip_rs.Proto.Etherip.Codec as EtheripCodec
use eo_ip_rs.Tunnel.Registry
use eo_ip_rs.Packet.Buffer.{PacketBuf}
use eo_ip_rs.Packet.Pool
use eo_ip_rs.Packet.Pool.{ArrayQueue, BufferPool}
use eo_ip_rs.Packet.Pool.Accounts.{available-new}
use eo_ip_rs.Packet.Rx.{Channel, RxState, process_v4_packet, process_v6_packet}
use eo_ip_rs.Packet.Rx.Layout.{ipv4_packet}
use eo_ip_rs.Packet.Rx.Delivery.{
  IsDelivered, process_v4_packet_delivers, process_v6_packet_delivers,
}
use eo_ip_rs.Packet.Rx.Total.{IsFine, process_v4_packet_total, process_v6_packet_total}
use eo_ip_rs.Packet.Tx.{socket_v4, socket_v6, read_and_encode}
use eo_ip_rs.Packet.Tx.Encoded.{IsSending, read_and_encode_v4, read_and_encode_v6}
use eo_ip_rs.Packet.Tx.Batcher.{Outgoing, run_batcher, Event, received, elapsed}
use eo_ip_rs.Packet.Tx.Batcher.Runs.{run_batcher_single}
use eo_ip_rs.Tests.Models.{list_queue, list_channel, list_map}
use eo_ip_rs.Tests.Daemon.{peer, handle}
use eo_ip_rs.Tunnel.Registry.{DashMap}

abbrev pub queue : ArrayQueue PacketBuf
queue = list_queue PacketBuf

abbrev pool : BufferPool queue
pool = record { queue = ([], 2); capacity = 2 }

available-new_example : Pool.available queue (Pool.new queue 3) ≡ 3
available-new_example = available-new queue 3 (omega arith)

abbrev pub frame : List ℕ
frame = 1 ∷ 2 ∷ 3 ∷ 4 ∷ 5 ∷ 6 ∷ 7 ∷ 8 ∷ 9 ∷ 10 ∷ 11 ∷ 12 ∷ 8 ∷ 0 ∷ 77 ∷ []

read_and_encode_v4_example :
    IsSending
      (read_and_encode queue (List PacketBuf × ℕ) 9 (ok frame) (handle 7) pool false).result
      (GreCodec.header_bytes 7 15 ++ frame)
      peer
read_and_encode_v4_example = read_and_encode_v4 queue 9 frame (handle 7) pool tt (omega arith)

read_and_encode_v6_example :
    IsSending
      (read_and_encode queue (List PacketBuf × ℕ) 9 (ok frame) (handle 7) pool true).result
      (EtheripCodec.header_bytes 7 ++ frame)
      peer
read_and_encode_v6_example =
    read_and_encode_v6 queue 9 frame (handle 7) pool tt (omega arith) (omega arith)

abbrev pub tunnels : DashMap DemuxKey ℕ
tunnels = list_map DemuxKey-discrete ℕ

abbrev pub channel : Channel PacketBuf
channel = list_channel PacketBuf

abbrev pub key : DemuxKey
key = record { tunnel_id = 7; peer_addr = peer }

-- The handle of tunnel 7 is at 0.
abbrev pub registry : List (DemuxKey × ℕ)
registry = (key, 0) ∷ []

registered : Registry.get tunnels key registry ≡ some 0
unfolding Registry.get
registered = tunnels.get-insert_self key 0 []

abbrev pub state : RxState queue tunnels channel
state = record {
  pool = pool;
  handles = λ p. handle 7;
  time = record { count = 0; ts = 0 };
  misses = record { last_miss_log = 0; miss_count = 0; logged = [] };
}

-- The parts of an IPv4 header without options, around the source address.
abbrev front : List ℕ
front = 0 ∷ 0 ∷ 43 ∷ 0 ∷ 0 ∷ 0 ∷ 0 ∷ 64 ∷ 47 ∷ 0 ∷ 0 ∷ []

abbrev back : List ℕ
back = 10 ∷ 0 ∷ 0 ∷ 1 ∷ []

abbrev junk : List ℕ
junk = 9 ∷ 9 ∷ 9 ∷ []

process_v4_packet_delivers_example :
    IsDelivered queue tunnels channel state 0
      ([], 4)
      frame
      (process_v4_packet queue tunnels channel 5000 10 registry
        (ipv4_packet 0x45 front 10 0 0 2 back
          ((GreCodec.header_bytes 7 (length frame) ++ frame) ++ junk))
        (28 + (length back - 4) + length frame)
        state)
process_v4_packet_delivers_example =
    process_v4_packet_delivers queue tunnels channel 5000 10 0 7 0x45 10 0 0 2 front back frame junk
      state ([], 4) registry refl refl (omega arith) (omega arith) (omega arith) tt (λ b. refl) refl
      registered

process_v6_packet_delivers_example :
    IsDelivered queue tunnels channel state 0
      ([], 4)
      frame
      (process_v6_packet queue tunnels channel 5000 10 registry
        (EtheripCodec.header_bytes 7 ++ (frame ++ junk))
        (length frame + 2)
        peer
        state)
process_v6_packet_delivers_example =
    process_v6_packet_delivers queue tunnels channel 5000 10 0 7 frame junk state ([], 4) registry
      peer (omega arith) (omega arith) (omega arith) tt (λ b. refl) refl registered

process_v4_packet_total_example :
    IsFine queue tunnels channel
      (process_v4_packet queue tunnels channel 5000 10 registry (0x4F ∷ front ++ frame) 24 state)
process_v4_packet_total_example =
    process_v4_packet_total queue tunnels channel 5000 10 registry (0x4F ∷ front ++ frame) 24 state
      (omega arith) tt

process_v6_packet_total_example :
    IsFine queue tunnels channel
      (process_v6_packet queue tunnels channel 5000 10 registry frame 2 peer state)
process_v6_packet_total_example =
    process_v6_packet_total queue tunnels channel 5000 10 registry frame 2 peer state (omega arith)
      tt

abbrev to_peer : Outgoing
to_peer = record { bytes = frame; dest = socket_v4 10 0 0 2 }

abbrev to_peer_v6 : Outgoing
to_peer_v6 = record { bytes = junk; dest = socket_v6 (replicate 16 2) }

abbrev events : List Event
events = received to_peer ∷ received to_peer_v6 ∷ elapsed ∷ received to_peer ∷ []

run_batcher_single_example : All (λ b. length b ≤ 1) (run_batcher 8 256 events)
run_batcher_single_example = run_batcher_single 8 256 events (omega arith)
