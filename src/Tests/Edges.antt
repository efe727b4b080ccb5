-- ===== src/Tests/Edges.antt =====
-- The receive loops, the ring, the services and the client on concrete inputs.
use eo_ip_rs.Base.{
  ◌==◌, if◌then◌else◌, replicate, Result, ok, ◌>>=◌, Text, codes, ℕ, ◌≡◌, refl, true, none, List,
  [], ◌∷◌, arith,
}
use eo_ip_rs.Ipsec.Vici.{Element, section_start, key_value, has_established_sa}
use eo_ip_rs.Ipsec.Vici.Unique.{has_established_sa-unique_id}
use eo_ip_rs.Packet.Mmap.{Block, is_ready, PacketMmapRing, process_block}
use eo_ip_rs.Packet.Mmap.Chain.{chain_last, chain_link, Holds, deliver, process_block-Chain}
use eo_ip_rs.Packet.Rx.Loops.{
  Turn, again, broken, received, cancelled, unsupported, idle, Arrival, rx_loop_v4,
  rx_loop_v4_afpacket,
}
use eo_ip_rs.Packet.Rx.Loops.Agree.{framed, loops_agree}
use eo_ip_rs.Cli.Parse.{parse_command}
use eo_ip_rs.Cli.Parse.Slashes.{Clean, parse_command-Clean}
use eo_ip_rs.Tests.Packets.{queue, tunnels, channel, registry, state, frame}

abbrev arrival : Arrival queue tunnels channel
arrival = record { buf = frame; size = 15; registry = registry; now = 5000; elapsed = 10 }

abbrev Arrived : Type 0
Arrived = Arrival queue tunnels channel

abbrev mac : List ℕ
mac = replicate 14 1

abbrev on_ethernet : Arrived
on_ethernet = framed queue tunnels channel (mac, arrival)

abbrev singles : List (Turn Arrived)
singles = received arrival ∷ again ∷ received arrival ∷ broken ∷ received arrival ∷ []

abbrev batches : List (Turn (List Arrived))
batches = again ∷ received (arrival ∷ arrival ∷ []) ∷ cancelled ∷ []

loops_agree_example :
    (rx_loop_v4 queue tunnels channel unsupported batches singles state
      ≡ rx_loop_v4 queue tunnels channel idle batches singles state)
    × (rx_loop_v4_afpacket queue tunnels channel
          (received (on_ethernet ∷ []) ∷ received (on_ethernet ∷ []) ∷ [])
          state
        ≡ rx_loop_v4 queue tunnels channel idle batches singles state)
loops_agree_example =
    loops_agree queue tunnels channel ((mac, arrival) ∷ (mac, arrival) ∷ []) state singles batches
      (received (on_ethernet ∷ []) ∷ received (on_ethernet ∷ []) ∷ []) (refl, (refl, tt)) refl refl
      refl

-- Two packets, the second behind the first.
abbrev block : Block
block = record {
  block_status = 1;
  num_pkts = 2;
  offset_to_first_pkt = 48;
  header = λ offset. record {
    tp_next_offset = if offset == 48 then 128 else 0;
    tp_snaplen = 16;
    tp_mac = 66;
    tp_net = 80;
  };
  bytes = λ offset size. replicate size 9;
}

abbrev ring : PacketMmapRing
ring = record { current_block = 3; block_nr = 4; released = [] }

abbrev pair : List ℕ
pair = 9 ∷ 9 ∷ []

abbrev keep : List ℕ → ℕ → List (List ℕ) → Result (List (List ℕ)) Text
keep packet size packets = ok (packet ∷ packets)

holds : (offset : ℕ) → Holds block offset pair
holds offset = record { net_small = omega arith; mac_le = omega arith; snaplen = refl; read = refl }

process_block-Chain_example : process_block keep block none ring [] ≡ (
    deliver keep (pair ∷ pair ∷ []) [] >>= λ t.
    ok (record { current_block = 0; block_nr = 4; released = 3 ∷ [] }, t, 2))
unfolding is_ready
process_block-Chain_example =
    process_block-Chain keep block none (pair ∷ pair ∷ []) ring [] refl refl
      (chain_link (holds 48) (omega arith) (chain_last (holds 176) refl))

abbrev bytes_of : List ℕ → Text
bytes_of bytes = bytes

-- A connection that is only being set up.
abbrev connecting : List Element
connecting =
    section_start (codes "eoip-7")
    ∷ key_value (codes "uniqueid") (codes "1")
    ∷ key_value (codes "state") (codes "CONNECTING")
    ∷ []

has_established_sa-unique_id_example :
    has_established_sa bytes_of (codes "eoip-7") (connecting ∷ []) ≡ true
has_established_sa-unique_id_example =
    has_established_sa-unique_id bytes_of (codes "eoip-7") [] [] [] []
      (key_value (codes "state") (codes "CONNECTING") ∷ []) (codes "1")

abbrev same : Text → Text
same t = t

abbrev typed : List Text
typed = codes "add" ∷ codes "tunnel-id=7" ∷ codes "remote=10.0.0.2" ∷ codes "ipsec-secret=a/b" ∷ []

parse_command-Clean_example : Clean (parse_command same typed)
parse_command-Clean_example = parse_command-Clean same typed
