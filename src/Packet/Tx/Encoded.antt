-- ===== src/Packet/Tx/Encoded.antt =====
-- What `read_and_encode` hands to the batcher: the header of the tunnel, and behind it the frame as
-- the device gave it.
pub mod Outcome
use eo_ip_rs.Base.{
  le→not_ltb, length, take, drop, length-take, length-drop, Result, ok, ◌>>=◌, slice_lem, copy_at,
  length-copy_at, as_u16, ℕ, zero, suc, ◌+◌, ◌-◌, ◌≤◌, ◌<◌, ◌≡◌, refl, ap, ◌∙◌, Bool, true, false,
  some, List, [], ◌∷◌, ◌++◌, arith,
}
use mathlib.Core.Path.{fun_ext}
use eo_ip_rs.Proto.Error.{EoipError}
use eo_ip_rs.Proto.Gre.{encode_eoip_header}
use eo_ip_rs.Proto.Gre.Codec as GreCodec
use eo_ip_rs.Proto.Gre.Codec.{encode_eoip_header_lem}
use eo_ip_rs.Proto.Etherip.{encode_eoipv6_header}
use eo_ip_rs.Proto.Etherip.Codec as EtheripCodec
use eo_ip_rs.Proto.Etherip.Codec.{encode_eoipv6_header_lem}
use eo_ip_rs.Packet.Buffer.{
  PacketBuf, as_slice, set_len, prepend_header, write_header, write_payload, max_frame_size,
  buf_total,
}
use eo_ip_rs.Packet.Buffer.View.{IsOwned, write_payload_lem, filled, as_slice_header_frame}
use eo_ip_rs.Packet.Pool
use eo_ip_rs.Packet.Pool.{ArrayQueue, BufferPool}
use eo_ip_rs.Packet.Pool.Accounts.{IsReady, get-IsFresh}
use eo_ip_rs.Tunnel.Handle.{TunnelHandle}
use eo_ip_rs.Proto.Types.Addr.{IpAddr}
use eo_ip_rs.Packet.Tx.{
  TxPacket, IoError, to_socket_addr, read_and_encode, prepend_encoded, prepend_protocol, count_tx,
  finish,
}

drop_all : (n : ℕ) (xs : List ℕ) → length xs ≤ n → drop n xs ≡ []
drop_all zero [] h = refl
drop_all zero (x ∷ xs) h = absurd (omega arith)
drop_all (suc n) [] h = refl
drop_all (suc n) (x ∷ xs) h = drop_all n xs (omega arith)

-- A header in front of a buffer that has the whole headroom.
with_header : PacketBuf → List ℕ → List ℕ → PacketBuf
with_header b bytes header = record b {
  bytes = some (copy_at (64 - length header) header bytes);
  head = 64 - length header;
  len = b.len + length header;
}

prepend_encoded_lem :
    (encode : List ℕ → Result (List ℕ) EoipError) (b : PacketBuf) (bytes header : List ℕ)
    → b.bytes ≡ some bytes
    → length bytes ≡ buf_total
    → b.head ≡ 64
    → length header ≤ 64
    → ((slot : List ℕ) → length slot ≡ length header → encode slot ≡ ok header)
    → prepend_encoded (length header) encode b ≡ ok (with_header b bytes header)
unfolding prepend_encoded prepend_header write_header with_header
prepend_encoded_lem encode b bytes header owned size full small encodes =
    let n = length header in
    let slot = take (64 - (64 - n)) (drop (64 - n) bytes) in
    let cut = slice_lem {E = IoError} bytes (64 - n) 64 (omega arith) (omega arith) in
    let slot_size : length slot ≡ n =
      omega
        (arith, length-take (64 - (64 - n)) (drop (64 - n) bytes), length-drop (64 - n) bytes) in
    rw (owned, full, le→not_ltb 64 n small) (rw cut (rw (encodes slot slot_size) refl))

encode_v4 :
    (tid plen : ℕ) (slot : List ℕ)
    → length slot ≡ 8
    → encode_eoip_header tid plen slot ≡ ok (GreCodec.header_bytes tid plen)
encode_v4 tid plen slot size =
    encode_eoip_header_lem tid plen slot (omega arith) ∙ rw (drop_all 8 slot (omega arith)) refl

encode_v6 :
    (tid : ℕ) (slot : List ℕ)
    → tid < 4096
    → length slot ≡ 2
    → encode_eoipv6_header tid slot ≡ ok (EtheripCodec.header_bytes tid)
encode_v6 tid slot small size =
    encode_eoipv6_header_lem tid slot small (omega arith) ∙ rw (drop_all 2 slot (omega arith)) refl

-- A result that is a packet for `remote` whose bytes are `wire`.
pub record IsSending (r : Result TxPacket IoError) (wire : List ℕ) (remote : IpAddr) : Type 0 where
  pub packet : TxPacket
  pub made : r ≡ ok packet
  pub shows : as_slice {E = EoipError} packet.buf ≡ ok wire
  pub dest : packet.dest ≡ to_socket_addr remote

-- A frame read into a fresh buffer, with a header in front.
framed :
    (encode : List ℕ → Result (List ℕ) EoipError) (b : PacketBuf) (bytes header frame : List ℕ)
    → IsOwned b bytes
    → length frame ≤ max_frame_size
    → length header ≤ 64
    → ((slot : List ℕ) → length slot ≡ length header → encode slot ≡ ok header)
    → (write_payload frame b >>= λ b.
        prepend_encoded (length header) encode (set_len (length frame) b))
      ≡ ok (with_header (filled b bytes frame) (copy_at 64 frame bytes) header)
unfolding set_len
framed encode b bytes header frame own short small encodes =
    rw (write_payload_lem {E = IoError} b bytes frame own short) (
      prepend_encoded_lem encode (filled b bytes frame) (copy_at 64 frame bytes) header refl
        (length-copy_at 64 frame bytes ∙ own.size) refl small encodes)

framed_shows :
    (b : PacketBuf) (bytes header frame : List ℕ)
    → length bytes ≡ buf_total
    → length frame ≤ max_frame_size
    → length header ≤ 64
    → as_slice {E = EoipError} (with_header (filled b bytes frame) (copy_at 64 frame bytes) header)
      ≡ ok (header ++ frame)
unfolding with_header
framed_shows b bytes header frame size short small =
    as_slice_header_frame (with_header (filled b bytes frame) (copy_at 64 frame bytes) header) bytes
      header frame size small short refl refl refl

module _ (q : ArrayQueue PacketBuf) {Sender : Type 0} where
  sending :
      (is_v6 : Bool) (now : ℕ) (frame header : List ℕ) (h : TunnelHandle Sender)
      (pool : BufferPool q)
      → IsReady q pool
      → length frame ≤ max_frame_size
      → length header ≤ 64
      → (encode : List ℕ → Result (List ℕ) EoipError)
      → ((b : PacketBuf)
          → prepend_protocol is_v6 h.config.tunnel_id (length frame) b
            ≡ prepend_encoded (length header) encode b)
      → ((slot : List ℕ) → length slot ≡ length header → encode slot ≡ ok header)
      → IsSending
          (read_and_encode q Sender now (ok frame) h pool is_v6).result
          (header ++ frame)
          h.config.remote
  unfolding read_and_encode count_tx
  sending is_v6 now frame header h pool ready short small encode same encodes =
      let (kept, fresh) = get-IsFresh q pool ready in
      let (bytes, own) = fresh.box in
      let b = (Pool.get q pool).1 in
      let chain =
        ap (λ k. write_payload {E = IoError} frame b >>= λ b. k (set_len (length frame) b))
          (fun_ext same)
        ∙ framed encode b bytes header frame own short small encodes in
      let left = (Pool.get q pool).0 in
      record {
        packet = record {
          buf = with_header (filled b bytes frame) (copy_at 64 frame bytes) header;
          dest = to_socket_addr h.config.remote;
        };
        made = ap (λ r. (finish q Sender b (count_tx now (length frame) h) left r).result) chain;
        shows = framed_shows b bytes header frame own.size short small;
        dest = refl;
      }

  -- Over IPv4, from a pool whose buffers have their boxes and for a frame of at most 1522 bytes: the
  -- result is a packet for the tunnel's peer that holds the EoIP header with the tunnel's id and the
  -- frame's length, and then the frame.
  pub read_and_encode_v4 :
      (now : ℕ) (frame : List ℕ) (h : TunnelHandle Sender) (pool : BufferPool q)
      → IsReady q pool
      → length frame ≤ max_frame_size
      → IsSending
          (read_and_encode q Sender now (ok frame) h pool false).result
          (GreCodec.header_bytes h.config.tunnel_id (length frame) ++ frame)
          h.config.remote
  read_and_encode_v4 now frame h pool ready short =
      let tid = h.config.tunnel_id in
      let fits : as_u16 (length frame) ≡ length frame = omega arith in
      sending false now frame (GreCodec.header_bytes tid (length frame)) h pool ready short
        (omega arith) (encode_eoip_header tid (as_u16 (length frame)))
        (λ b. unfold prepend_protocol in refl)
        (λ slot size. rw fits (encode_v4 tid (length frame) slot size))

  -- Over IPv6, from a pool whose buffers have their boxes, for a frame of at most 1522 bytes and a
  -- tunnel whose id has at most 12 bits: the result is a packet for the tunnel's peer that holds the
  -- EoIPv6 header with the id, and then the frame.
  pub read_and_encode_v6 :
      (now : ℕ) (frame : List ℕ) (h : TunnelHandle Sender) (pool : BufferPool q)
      → IsReady q pool
      → length frame ≤ max_frame_size
      → h.config.tunnel_id < 4096
      → IsSending
          (read_and_encode q Sender now (ok frame) h pool true).result
          (EtheripCodec.header_bytes h.config.tunnel_id ++ frame)
          h.config.remote
  read_and_encode_v6 now frame h pool ready short small =
      let tid = h.config.tunnel_id in
      sending true now frame (EtheripCodec.header_bytes tid) h pool ready short (omega arith)
        (encode_eoipv6_header tid) (λ b. unfold prepend_protocol in refl)
        (λ slot size. encode_v6 tid slot small size)
