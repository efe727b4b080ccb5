-- ===== src/Tests/Sender.antt =====
-- The reader of a device and the batcher on concrete inputs.
use eo_ip_rs.Base.{
  replicate, ok, err, ℕ, ◌≡◌, refl, inl, true, Option, none, some, List, [], ◌∷◌, ◌++◌, map, arith,
}
use eo_ip_rs.Packet.Buffer.{PacketBuf}
use eo_ip_rs.Packet.Tx.Batcher.{received, closed, run_batcher}
use eo_ip_rs.Packet.Tx.Batcher.Runs.{concat}
use eo_ip_rs.Packet.Tx.Reader.{ReadTurn, device, ReaderState, spawn_tap_reader}
use eo_ip_rs.Packet.Tx.Reader.Frames.{outgoing, IsHanded, spawn_tap_reader-run_batcher}
use eo_ip_rs.Packet.Tx.Reader.WideId.{spawn_tap_reader-wide_id}
use eo_ip_rs.Tests.Packets.{queue, state, frame}
use eo_ip_rs.Tests.Daemon.{tunnel, handle}
use eo_ip_rs.Proto.Types.Addr.{v6, is_ipv6}
use eo_ip_rs.Config.{TunnelConfig}
use eo_ip_rs.Tunnel.Lifecycle.{active, new}
use eo_ip_rs.Packet.Tx.{IoError, would_block}
use eo_ip_rs.Keepalive.Task.{Watched}

abbrev Queued : Type 0
Queued = List PacketBuf × ℕ

abbrev answers : List ReadTurn
answers = device 5 (ok frame) true ∷ device 6 (err would_block) true ∷ device 7 (ok frame) true ∷ []

abbrev reading : ℕ → ReaderState queue Queued
reading tid = record { pool = state.pool; handle = handle tid; sent = [] }

abbrev wide : TunnelConfig
wide = record (tunnel 5000) { remote = v6 (0xfe ∷ 0x80 ∷ replicate 13 0 ++ 2 ∷ []) }

abbrev reading_v6 : ReaderState queue Queued
reading_v6 = record (reading 5000) { handle = record (handle 5000) { config = wide } }

spawn_tap_reader-run_batcher_example :
    IsHanded queue Queued
      (tunnel 7)
      (frame ∷ frame ∷ [])
      []
      (spawn_tap_reader queue Queued answers (reading 7))
    × (concat (
          run_batcher 8 256
            (map received (map (outgoing (tunnel 7)) (frame ∷ frame ∷ [])) ++ closed ∷ closed ∷ []))
        ≡ map (outgoing (tunnel 7)) (frame ∷ frame ∷ []))
unfolding is_ipv6
spawn_tap_reader-run_batcher_example =
    spawn_tap_reader-run_batcher queue Queued answers (reading 7) 8 256 (closed ∷ closed ∷ []) refl
      tt (omega arith, (tt, (omega arith, tt))) (inl refl)

spawn_tap_reader-wide_id_example :
    (after : ReaderState queue Queued) × (spawn_tap_reader queue Queued answers reading_v6
      ≡ ok after)
    × (after.sent ≡ [])
unfolding is_ipv6
spawn_tap_reader-wide_id_example =
    spawn_tap_reader-wide_id queue Queued 5 frame true
      (device 6 (err would_block) true ∷ device 7 (ok frame) true ∷ []) reading_v6 refl tt
      (omega arith) (omega arith)

-- The second keepalive is refused.
abbrev ticks : List (ℕ × Option IoError)
ticks = (10000, none) ∷ (20000, some would_block) ∷ []

abbrev watched : Watched
watched = record { cell = new active; last_rx = 5000; sent = [] }
