-- ===== src/Packet/Tx.antt =====
-- crates/eoip-rs/src/packet/tx.rs: from a frame of the TAP device to a packet for the raw socket, and
-- a keepalive. The device, the socket and the clock are arguments: what `read` delivers, what
-- `sendto` answers, the time.
pub mod Batcher
pub mod Encoded
pub mod Reader
use eo_ip_rs.Base.{
  ◌==◌, if◌then◌else◌, length, replicate, Result, ok, err, panic, ◌>>=◌, map_err, slice_to, as_u16,
  add_u64, Text, ℕ, ◌%◌, Bool, true, false, List,
}
use eo_ip_rs.Proto.Error.{EoipError}
use eo_ip_rs.Proto.Types.Addr.{IpAddr, v4, v6, is_ipv6}
use eo_ip_rs.Proto.Gre.{encode_eoip_header, eoip_header_len}
use eo_ip_rs.Proto.Etherip.{encode_eoipv6_header, etherip_header_len}
use eo_ip_rs.Packet.Buffer.{PacketBuf, write_payload, set_len, prepend_header, write_header}
use eo_ip_rs.Packet.Pool
use eo_ip_rs.Packet.Pool.{ArrayQueue, BufferPool}
use eo_ip_rs.Tunnel.Handle.{TunnelHandle}

-- `io::Error` by its kind. `invalid_data` carries the codec's error, whose text the program makes it of.
pub data IoError : Type 0 where
  would_block : IoError
  invalid_data : EoipError → IoError
  other : Text → IoError

-- `SocketAddr` with the port, the flow and the scope 0, as the program makes it.
pub data SocketAddr : Type 0 where
  socket_v4 : (a b c d : ℕ) → SocketAddr
  socket_v6 : List ℕ → SocketAddr

unfoldable pub to_socket_addr : IpAddr → SocketAddr
to_socket_addr (v4 a b c d) = socket_v4 a b c d
to_socket_addr (v6 octets) = socket_v6 octets

pub record TxPacket : Type 0 where
  pub buf : PacketBuf
  pub dest : SocketAddr

-- Encode into the slice that `prepend_header` returns.
prepend_encoded : ℕ → (List ℕ → Result (List ℕ) EoipError) → PacketBuf → Result PacketBuf IoError
prepend_encoded header_len encode buf = do
  (buf, hdr) ← prepend_header header_len buf
  hdr ← map_err invalid_data (encode hdr)
  write_header hdr buf

prepend_protocol : Bool → ℕ → ℕ → PacketBuf → Result PacketBuf IoError
unfolding prepend_encoded
prepend_protocol true tunnel_id n buf =
    prepend_encoded etherip_header_len (encode_eoipv6_header tunnel_id) buf
prepend_protocol false tunnel_id n buf =
    prepend_encoded eoip_header_len (encode_eoip_header tunnel_id (as_u16 n)) buf

-- `tx_packets`, `tx_bytes`, and on every 64th packet `last_tx_timestamp`.
unfoldable pub count_tx : {Sender : Type 0} → ℕ → ℕ → TunnelHandle Sender → TunnelHandle Sender
count_tx now n h =
    let stats = record h.stats {
      tx_packets = add_u64 h.stats.tx_packets 1;
      tx_bytes = add_u64 h.stats.tx_bytes n;
      last_tx_timestamp = (if h.stats.tx_packets % 64 == 0 then now else h.stats.last_tx_timestamp);
    } in
    record h { stats = stats }

module _ (q : ArrayQueue PacketBuf) (Sender : Type 0) where
  -- The pool and the handle that a call leaves, and its result.
  pub record TxOutcome : Type 0 where
    pub pool : BufferPool q
    pub handle : TunnelHandle Sender
    pub result : Result TxPacket IoError

  -- A buffer that goes out of scope with an error is dropped. An encoding error leaves the box of the
  -- buffer as the pool takes it: its content does not count.
  finish : PacketBuf → TunnelHandle Sender → BufferPool q → Result PacketBuf IoError → TxOutcome
  finish taken h pool (ok buf) = record {
    pool = pool;
    handle = h;
    result = ok (record { buf = buf; dest = to_socket_addr h.config.remote });
  }
  finish taken h pool (err e) = record {
    pool = Pool.drop_buf q taken pool;
    handle = h;
    result = err e;
  }
  finish taken h pool panic = record { pool = pool; handle = h; result = panic }

  -- `frame` is what the device wrote into the payload area, of which it writes at most its length.
  read_frame : ℕ → Bool → TunnelHandle Sender → BufferPool q → PacketBuf → List ℕ → TxOutcome
  unfolding finish prepend_protocol
  read_frame now is_v6 h pool buf frame =
      let counted = count_tx now (length frame) h in
      finish buf counted pool (do
        buf ← write_payload frame buf
        let buf = set_len (length frame) buf
        prepend_protocol is_v6 counted.config.tunnel_id (length frame) buf)

  after_read :
      ℕ
      → Bool
      → TunnelHandle Sender
      → BufferPool q
      → PacketBuf
      → Result (List ℕ) IoError
      → TxOutcome
  unfolding read_frame
  after_read now is_v6 h pool buf (ok frame) = read_frame now is_v6 h pool buf frame
  after_read now is_v6 h pool buf (err e) = record {
    pool = Pool.drop_buf q buf pool;
    handle = h;
    result = err e;
  }
  after_read now is_v6 h pool buf panic = record { pool = pool; handle = h; result = panic }

  unfoldable pub read_and_encode :
      ℕ → Result (List ℕ) IoError → TunnelHandle Sender → BufferPool q → Bool → TxOutcome
  unfolding after_read
  read_and_encode now read h pool is_v6 =
      let (pool, buf) = Pool.get q pool in after_read now is_v6 h pool buf read

-- The bytes that `send_keepalive` hands to `send_raw`, and where they go.
unfoldable pub keepalive_packet : IpAddr → ℕ → Result (List ℕ × SocketAddr) IoError
keepalive_packet remote tunnel_id =
    let hdr_buf = replicate eoip_header_len 0 in
    if is_ipv6 remote
    then (do
      hdr ← slice_to hdr_buf etherip_header_len
      hdr ← map_err invalid_data (encode_eoipv6_header tunnel_id hdr)
      ok (hdr, to_socket_addr remote))
    else (do
      hdr ← map_err invalid_data (encode_eoip_header tunnel_id 0 hdr_buf)
      ok (hdr, to_socket_addr remote))

-- `sendto` is the answer of the socket to a packet.
unfoldable pub send_keepalive :
    (List ℕ → SocketAddr → Result (Unit {0}) IoError) → IpAddr → ℕ → Result (Unit {0}) IoError
send_keepalive sendto remote tunnel_id = do
  (data', dest) ← keepalive_packet remote tunnel_id
  sendto data' dest
