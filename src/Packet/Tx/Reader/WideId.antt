-- ===== src/Packet/Tx/Reader/WideId.antt =====
-- The reader of a tunnel over IPv6 whose id the header cannot hold.
use eo_ip_rs.Base.{
  le→not_ltb, length, take, drop, Result, ok, err, ◌>>=◌, slice_lem, copy_at, length-copy_at, ℕ,
  ◌-◌, ◌≤◌, ◌≡◌, refl, ap, ◌∙◌, Bool, true, some, List, ◌∷◌, arith,
}
use mathlib.Core.Path.{fun_ext}
use eo_ip_rs.Proto.Error.{EoipError, tunnel_id_out_of_range}
use eo_ip_rs.Proto.Etherip.{encode_eoipv6_header}
use eo_ip_rs.Proto.Types.Addr.{is_ipv6}
use eo_ip_rs.Packet.Buffer.{
  PacketBuf, set_len, write_payload, prepend_header, max_frame_size, buf_total,
}
use eo_ip_rs.Packet.Buffer.View.{filled, write_payload_lem}
use eo_ip_rs.Packet.Pool
use eo_ip_rs.Packet.Pool.{ArrayQueue, BufferPool}
use eo_ip_rs.Packet.Pool.Accounts.{IsReady, get-IsFresh}
use eo_ip_rs.Tunnel.Handle.{TunnelHandle}
use eo_ip_rs.Packet.Tx.{
  IoError, invalid_data, read_and_encode, prepend_encoded, prepend_protocol, count_tx, finish,
}
use eo_ip_rs.Packet.Tx.Reader.{ReadTurn, device, ReaderState, read_loop, spawn_tap_reader}

-- A header that cannot be encoded.
prepend_encoded_err :
    (encode : List ℕ → Result (List ℕ) EoipError) (b : PacketBuf) (bytes : List ℕ) (n : ℕ)
    (e : EoipError)
    → b.bytes ≡ some bytes
    → length bytes ≡ buf_total
    → b.head ≡ 64
    → n ≤ 64
    → ((slot : List ℕ) → encode slot ≡ err e)
    → prepend_encoded n encode b ≡ err (invalid_data e)
unfolding prepend_encoded prepend_header
prepend_encoded_err encode b bytes n e owned size full small fails =
    let slot = take (64 - (64 - n)) (drop (64 - n) bytes) in
    let cut = slice_lem {E = IoError} bytes (64 - n) 64 (omega arith) (omega arith) in
    rw (owned, full, le→not_ltb 64 n small) (rw cut (rw (fails slot) refl))

encode_wide :
    (tid : ℕ) (slot : List ℕ)
    → 4096 ≤ tid
    → encode_eoipv6_header tid slot ≡ err (tunnel_id_out_of_range tid 4095)
unfolding encode_eoipv6_header
encode_wide tid slot wide = ground arith

module _ (q : ArrayQueue PacketBuf) (Sender : Type 0) where
  -- The outcome of the read_round: the error, with the buffer given back.
  wide_outcome :
      (now : ℕ) (frame : List ℕ) (h : TunnelHandle Sender) (pool : BufferPool q)
      → IsReady q pool
      → length frame ≤ max_frame_size
      → 4096 ≤ h.config.tunnel_id
      → read_and_encode q Sender now (ok frame) h pool true ≡ record {
        pool = Pool.drop_buf q (Pool.get q pool).1 (Pool.get q pool).0;
        handle = count_tx now (length frame) h;
        result = err (invalid_data (tunnel_id_out_of_range h.config.tunnel_id 4095));
      }
  unfolding read_and_encode count_tx set_len
  wide_outcome now frame h pool ready short wide =
      let (kept, fresh) = get-IsFresh q pool ready in
      let (bytes, own) = fresh.box in
      let b = (Pool.get q pool).1 in
      let left = (Pool.get q pool).0 in
      let encode = encode_eoipv6_header h.config.tunnel_id in
      let same : (b : PacketBuf)
          → prepend_protocol true h.config.tunnel_id (length frame) b ≡ prepend_encoded 2 encode b =
        λ b. unfold prepend_protocol in refl in
      let failed =
        prepend_encoded_err encode (filled b bytes frame) (copy_at 64 frame bytes) 2
          (tunnel_id_out_of_range h.config.tunnel_id 4095) refl
          (length-copy_at 64 frame bytes ∙ own.size) refl (omega arith)
          (λ slot. encode_wide h.config.tunnel_id slot wide) in
      let chain =
        ap (λ k. write_payload {E = IoError} frame b >>= λ b. k (set_len (length frame) b))
          (fun_ext same)
        ∙ ap (λ r. r >>= λ b. prepend_encoded 2 encode (set_len (length frame) b))
            (write_payload_lem {E = IoError} b bytes frame own short) in
      ap (finish q Sender b (count_tx now (length frame) h) left) (chain ∙ failed)

  -- For a tunnel to an IPv6 peer with an id above 12 bits: the first frame ends the reader without a packet,
  -- whatever the device would give afterwards.
  pub spawn_tap_reader-wide_id :
      (now : ℕ) (frame : List ℕ) (taken : Bool) (answers : List ReadTurn) (s : ReaderState q Sender)
      → is_ipv6 s.handle.config.remote ≡ true
      → IsReady q s.pool
      → length frame ≤ max_frame_size
      → 4096 ≤ s.handle.config.tunnel_id
      → (after : ReaderState q Sender) × (spawn_tap_reader q Sender
            (device now (ok frame) taken ∷ answers)
            s
          ≡ ok after)
        × (after.sent ≡ s.sent)
  unfolding spawn_tap_reader read_loop
  spawn_tap_reader-wide_id now frame taken answers s over_v6 ready short wide = (
    record {
      pool = Pool.drop_buf q (Pool.get q s.pool).1 (Pool.get q s.pool).0;
      handle = count_tx now (length frame) s.handle;
      sent = s.sent;
    },
    rw over_v6 (rw (wide_outcome now frame s.handle s.pool ready short wide) refl),
    refl,
  )
