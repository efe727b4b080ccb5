-- ===== src/Tests/Wire.antt =====
-- The filter, the capture files, the traffic of Windows and two creations at once on concrete inputs.
use eo_ip_rs.Base.{
  length, replicate, length-replicate, ok, Text, codes, ℕ, ◌≡◌, refl, ◌≢◌, ◌↔◌, ◌⊎◌, Bool, true,
  List, [], ◌∷◌, ◌++◌, map, arith,
}
use eo_ip_rs.Tests.Machine.{machine}
use eo_ip_rs.Helper.Rawsock.{attached}
use eo_ip_rs.Helper.Rawsock.Filter.{IsGre, IsContinuation, attached_iff}
use eo_ip_rs.Analyzer.PcapReader.{DataLink, ethernet, strip_link_layer}
use eo_ip_rs.Analyzer.PcapReader.Stripped.{IsBehind, header_size, strip_link_layer-IsBehind}
use eo_ip_rs.Proto.Types.{new_stats}
use eo_ip_rs.Proto.Types.Addr.{v4}
use eo_ip_rs.Tunnel.Registry
use eo_ip_rs.Packet.Rx.{process_v4_packet}
use eo_ip_rs.Packet.Rx.Delivery.{IsDelivered}
use eo_ip_rs.Daemon.Windows.{WinTx, WinRx, tx_turn, tx_loop, rx_loop}
use eo_ip_rs.Daemon.Windows.Traffic.{packet_of, rx_loop-tx_loop, process_v4_packet-tx_turn}
use eo_ip_rs.Tests.Packets.{queue, tunnels, channel, registry, state, frame, key}
use eo_ip_rs.Config.{TunnelConfig}
use eo_ip_rs.Tunnel.Manager.Single.{IsSingle}
use eo_ip_rs.Tunnel.Manager.Concurrent.{arrived, registered, Interleaved}
use eo_ip_rs.Tunnel.Manager.Concurrent.Race.{create_tunnel-race}
use eo_ip_rs.Tests.Manager
use eo_ip_rs.Tests.Manager.{vici, show_ip, fine, daemon, env, State}
use eo_ip_rs.Tests.Daemon.{tunnel}

accepted : List ℕ
accepted = replicate 23 0 ++ 47 ∷ []

attached_iff_example :
    ((attached machine accepted ≡ 65535) ⊎ (attached machine accepted ≡ 0))
    × ((attached machine accepted ≡ 65535) ↔ (IsGre accepted ⊎ IsContinuation accepted))
attached_iff_example = attached_iff machine accepted

show_link : DataLink → Text
show_link link_type = codes "link"

tagged : List ℕ
tagged = replicate 12 0 ++ 0x81 ∷ 0x00 ∷ 0 ∷ 7 ∷ 8 ∷ 0 ∷ 0x45 ∷ []

strip_link_layer-IsBehind_example :
    IsBehind (header_size ethernet tagged) tagged (strip_link_layer show_link ethernet tagged)
unfolding tagged
strip_link_layer-IsBehind_example =
    strip_link_layer-IsBehind show_link ethernet tagged (omega arith)

abbrev takes : List ℕ → Bool
takes packet = true

abbrev win_tx : WinTx
win_tx = record { pkt = replicate 1550 0; sent = []; stats = new_stats }

abbrev win_rx : WinRx
win_rx = record { written = []; reinjected = []; stats = new_stats }

rx_loop-tx_loop_example :
    (s' : WinTx) × (r' : WinRx) × (tx_loop takes
        (v4 10 0 0 2)
        (v4 10 0 0 1)
        7
        (map ok (frame ∷ []))
        win_tx
      ≡ ok s')
    × (s'.sent ≡ packet_of takes 10 0 0 2 10 0 0 1 7 frame ∷ [])
    × (rx_loop 7 (ok (5, packet_of takes 10 0 0 2 10 0 0 1 7 frame) ∷ []) win_rx ≡ ok r')
    × (r'.written ≡ win_rx.written ++ frame ∷ [])
    × (r'.reinjected ≡ win_rx.reinjected)
rx_loop-tx_loop_example =
    rx_loop-tx_loop takes 10 0 0 2 10 0 0 1 7 5 (frame ∷ []) win_tx win_rx
      (length-replicate {A = ℕ} 1550 0) ((omega arith, omega arith), tt) (λ packet. refl)

process_v4_packet-tx_turn_example :
    (s' : WinTx) × (packet : List ℕ) × (tx_turn takes (v4 10 0 0 2) (v4 10 0 0 1) 7 frame win_tx
      ≡ ok s')
    × (s'.sent ≡ win_tx.sent ++ packet ∷ [])
    × IsDelivered queue tunnels channel state 0
        ([], 4)
        frame
        (process_v4_packet queue tunnels channel 5000 10 registry
          (packet ++ 9 ∷ [])
          (length packet)
          state)
unfolding Registry.get
process_v4_packet-tx_turn_example =
    process_v4_packet-tx_turn takes 10 0 0 2 10 0 0 1 7 queue tunnels channel 5000 10 0 frame
      (9 ∷ []) win_tx state ([], 4) registry (length-replicate {A = ℕ} 1550 0)
      (omega arith, omega arith) (λ packet. refl) tt (λ b. refl) refl
      (tunnels.get-insert_self key 0 [])

-- Two creations of tunnel 7, for two peers.
abbrev rival : TunnelConfig
rival = record (tunnel 7) { remote = v4 10 0 0 3 }

abbrev idle : State
idle = daemon []

other_peer : (tunnel 7).remote ≢ rival.remote
other_peer e = ground arith

create_tunnel-race_example :
    (end : State) × Interleaved ℕ Manager.tunnels vici show_ip
      (arrived env fine (tunnel 7))
      (arrived env fine rival)
      idle
      (registered env fine (tunnel 7) 0)
      (registered env fine rival 1)
      end
    × (¬ IsSingle Manager.tunnels end.registry)
unfolding Registry.find_by_tunnel_id
create_tunnel-race_example =
    create_tunnel-race ℕ Manager.tunnels vici show_ip env env fine fine (tunnel 7) rival idle refl
      other_peer refl
