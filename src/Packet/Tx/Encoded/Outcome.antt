-- ===== src/Packet/Tx/Encoded/Outcome.antt =====
-- The whole outcome of `read_and_encode` for a frame, the pool and the handle included.
use eo_ip_rs.Base.{
  length, ok, ◌>>=◌, copy_at, as_u16, ℕ, ◌≤◌, ◌≡◌, refl, ap, ◌∙◌, false, List, ◌++◌, arith,
}
use mathlib.Core.Path.{fun_ext}
use eo_ip_rs.Proto.Error.{EoipError}
use eo_ip_rs.Proto.Gre.{encode_eoip_header}
use eo_ip_rs.Proto.Gre.Codec as GreCodec
use eo_ip_rs.Packet.Buffer.{PacketBuf, as_slice, set_len, write_payload, max_frame_size}
use eo_ip_rs.Packet.Buffer.View.{filled}
use eo_ip_rs.Packet.Pool
use eo_ip_rs.Packet.Pool.{ArrayQueue, BufferPool}
use eo_ip_rs.Packet.Pool.Accounts.{IsReady, get-IsFresh}
use eo_ip_rs.Tunnel.Handle.{TunnelHandle}
use eo_ip_rs.Packet.Tx.{
  TxPacket, TxOutcome, IoError, to_socket_addr, read_and_encode, prepend_encoded, prepend_protocol,
  count_tx, finish,
}
use eo_ip_rs.Packet.Tx.Encoded.{framed, framed_shows, with_header, encode_v4}

-- The packet made of a frame: its bytes and where it goes; the pool that is left is ready again.
pub record IsMade {q : ArrayQueue PacketBuf} {Sender : Type 0} (now : ℕ) (frame wire : List ℕ)
    (h : TunnelHandle Sender) (pool : BufferPool q) (o : TxOutcome q Sender) : Type 0 where
  pub packet : TxPacket
  pub is : o ≡ record {
    pool = (Pool.get q pool).0;
    handle = count_tx now (length frame) h;
    result = ok packet;
  }
  pub shows : as_slice {E = EoipError} packet.buf ≡ ok wire
  pub dest : packet.dest ≡ to_socket_addr h.config.remote
  pub ready : IsReady q (Pool.get q pool).0

module _ (q : ArrayQueue PacketBuf) {Sender : Type 0} where
  pub read_and_encode_v4-IsMade :
      (now : ℕ) (frame : List ℕ) (h : TunnelHandle Sender) (pool : BufferPool q)
      → IsReady q pool
      → length frame ≤ max_frame_size
      → IsMade now frame
          (GreCodec.header_bytes h.config.tunnel_id (length frame) ++ frame)
          h
          pool
          (read_and_encode q Sender now (ok frame) h pool false)
  unfolding read_and_encode count_tx
  read_and_encode_v4-IsMade now frame h pool ready short =
      let tid = h.config.tunnel_id in
      let header = GreCodec.header_bytes tid (length frame) in
      let encode = encode_eoip_header tid (as_u16 (length frame)) in
      let fits : as_u16 (length frame) ≡ length frame = omega arith in
      let (kept, fresh) = get-IsFresh q pool ready in
      let (bytes, own) = fresh.box in
      let b = (Pool.get q pool).1 in
      let left = (Pool.get q pool).0 in
      let encodes : (slot : List ℕ) → length slot ≡ length header → encode slot ≡ ok header =
        λ slot size. rw fits (encode_v4 tid (length frame) slot size) in
      let same : (b : PacketBuf)
          → prepend_protocol false tid (length frame) b ≡ prepend_encoded (length header) encode b =
        λ b. unfold prepend_protocol in refl in
      let chain =
        ap (λ k. write_payload {E = IoError} frame b >>= λ b. k (set_len (length frame) b))
          (fun_ext same)
        ∙ framed encode b bytes header frame own short (omega arith) encodes in
      record {
        packet = record {
          buf = with_header (filled b bytes frame) (copy_at 64 frame bytes) header;
          dest = to_socket_addr h.config.remote;
        };
        is = ap (finish q Sender b (count_tx now (length frame) h) left) chain;
        shows = framed_shows b bytes header frame own.size short (omega arith);
        dest = refl;
        ready = kept;
      }
