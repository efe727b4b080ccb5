-- ===== src/Packet/Tx/Reader.antt =====
-- `spawn_tap_reader` of crates/eoip-rs/src/packet/tx.rs: the loop that reads the device of a tunnel and
-- hands packets to the batcher. A run is the list of what its `select!` answers.
pub mod Frames
pub mod WideId
use eo_ip_rs.Base.{Result, ok, err, panic, ℕ, ◌+◌, Bool, true, false, List, [], ◌∷◌, ◌++◌}
use eo_ip_rs.Proto.Types.Addr.{is_ipv6}
use eo_ip_rs.Packet.Buffer.{PacketBuf}
use eo_ip_rs.Packet.Pool
use eo_ip_rs.Packet.Pool.{ArrayQueue, BufferPool}
use eo_ip_rs.Tunnel.Handle.{TunnelHandle}
use eo_ip_rs.Packet.Tx.{TxPacket, IoError, would_block, TxOutcome, read_and_encode}

-- Shutdown, or what the device gives at a time, and whether the channel to the batcher still takes
-- packets.
pub data ReadTurn : Type 0 where
  shut_down : ReadTurn
  device : (now : ℕ) (read : Result (List ℕ) IoError) (taken : Bool) → ReadTurn

module _ (q : ArrayQueue PacketBuf) (Sender : Type 0) where
  -- `sent` holds the packets that the channel took, in order.
  pub record ReaderState : Type 0 where
    pub pool : BufferPool q
    pub handle : TunnelHandle Sender
    pub sent : List TxPacket

  -- How a read_round ends.
  pub data ReadRound : Type 0 where
    goes_on : ReaderState → ReadRound
    breaks : ReaderState → ReadRound
    fails : ReadRound

  left_by : List TxPacket → TxOutcome q Sender → ReaderState
  left_by sent o = record { pool = o.pool; handle = o.handle; sent = sent }

  -- A packet that the channel refuses is dropped with its buffer.
  read_round : Bool → List TxPacket → TxOutcome q Sender → Result TxPacket IoError → ReadRound
  unfolding left_by
  read_round true sent o (ok tx_pkt) = goes_on (left_by (sent ++ tx_pkt ∷ []) o)
  read_round false sent o (ok tx_pkt) =
      breaks (record (left_by sent o) { pool = Pool.drop_buf q tx_pkt.buf o.pool })
  read_round taken sent o (err would_block) = goes_on (left_by sent o)
  read_round taken sent o (err e) = breaks (left_by sent o)
  read_round taken sent o panic = fails

  continued : ReadRound → (ReaderState → Result ReaderState IoError) → Result ReaderState IoError
  continued (goes_on s) rest = rest s
  continued (breaks s) rest = ok s
  continued fails rest = panic

  unfoldable pub read_loop : Bool → List ReadTurn → ReaderState → Result ReaderState IoError
  unfolding read_round continued
  read_loop is_v6 [] s = ok s
  read_loop is_v6 (shut_down ∷ answers) s = ok s
  read_loop is_v6 (device now read taken ∷ answers) s =
      let o = read_and_encode q Sender now read s.handle s.pool is_v6 in
      continued (read_round taken s.sent o o.result) (read_loop is_v6 answers)

  -- The tunnel's remote address says whether packets go over IPv6.
  unfoldable pub spawn_tap_reader : List ReadTurn → ReaderState → Result ReaderState IoError
  unfolding read_loop is_ipv6
  spawn_tap_reader answers s = read_loop (is_ipv6 s.handle.config.remote) answers s
