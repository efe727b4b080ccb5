-- ===== src/Packet/Rx/Delivery.antt =====
-- What becomes of a good packet of a known tunnel: its frame stands at the end of the channel to the
-- tunnel's writer.
use eo_ip_rs.Base.{
  ltb, ◌==◌, le→not_ltb, length, take_all, Result, ok, index, slice_to, slice, copy_at, add_u64, ℕ,
  zero, suc, ◌+◌, ◌-◌, ◌*◌, ◌≤◌, ◌<◌, min, bit_and, ◌≡◌, refl, ap, ◌∙◌, Bool, true, false, some,
  List, [], ◌∷◌, ◌++◌, arith,
}
use eo_ip_rs.Proto.Error.{EoipError}
use eo_ip_rs.Proto.Types.{DemuxKey}
use eo_ip_rs.Proto.Types.Addr.{IpAddr, v4}
use eo_ip_rs.Proto.Gre.Codec as GreCodec
use eo_ip_rs.Proto.Etherip.Codec as EtheripCodec
use eo_ip_rs.Packet.Buffer.{PacketBuf, as_slice, set_len, max_frame_size}
use eo_ip_rs.Packet.Buffer.View.{IsOwned, write_payload_lem, filled, as_slice_header_frame}
use eo_ip_rs.Packet.Pool
use eo_ip_rs.Packet.Pool.{ArrayQueue, BufferPool}
use eo_ip_rs.Packet.Pool.Accounts.{IsReady, get-IsFresh}
use eo_ip_rs.Tunnel.Handle.{put_self}
use eo_ip_rs.Tunnel.Registry
use eo_ip_rs.Tunnel.Registry.{DashMap}
use eo_ip_rs.Packet.Rx.{
  Channel, RxState, count_rx, sent_or_dropped, forward, decoded_v4, process_v4_packet, decoded_v6,
  process_v6_packet,
}
use eo_ip_rs.Packet.Rx.Layout.{slice_to_front, index_source, slice_cut, slice_payload, ipv4_packet}

copy_at_nil : (n : ℕ) (xs : List ℕ) → copy_at n [] xs ≡ xs
copy_at_nil zero xs = refl
copy_at_nil (suc n) [] = refl
copy_at_nil (suc n) (x ∷ xs) = ap (λ t. x ∷ t) (copy_at_nil n xs)

filled_shows :
    (b : PacketBuf) (bytes frame : List ℕ)
    → IsOwned b bytes
    → length frame ≤ max_frame_size
    → as_slice {E = EoipError} (filled b bytes frame) ≡ ok frame
filled_shows b bytes frame own short =
    as_slice_header_frame (filled b bytes frame) bytes [] frame own.size (omega arith) short
      (rw (copy_at_nil 64 (copy_at 64 frame bytes)) refl) refl (omega arith)

module _ (q : ArrayQueue PacketBuf) (d : DashMap DemuxKey ℕ) (c : Channel PacketBuf) where
  -- The result of receiving `frame` for the handle at `p` in the state `s`: the handle's packet count
  -- is one higher, and behind what the channel held stands a buffer that shows the frame.
  pub record IsDelivered (s : RxState q d c) (p : ℕ) (tx : c.Sender) (frame : List ℕ)
      (r : Result (RxState q d c) EoipError) : Type 0 where
    pub after : RxState q d c
    pub made : r ≡ ok after
    pub buf : PacketBuf
    pub shows : as_slice {E = EoipError} buf ≡ ok frame
    pub queue : c.Sender
    pub connected : (after.handles p).rx_channel ≡ some queue
    pub sent : c.sent queue ≡ c.sent tx ++ buf ∷ []
    pub counted : (after.handles p).stats.rx_packets ≡ add_u64 (s.handles p).stats.rx_packets 1

  -- A channel with room.
  abbrev pub HasRoom : c.Sender → Type 0
  HasRoom tx = (b : PacketBuf) → (c.try_send b tx).1 ≡ true

  forward-eq :
      (p : ℕ) (frame : List ℕ) (s : RxState q d c) (tx : c.Sender) (bytes : List ℕ)
      → IsOwned (Pool.get q s.pool).1 bytes
      → length frame ≤ max_frame_size
      → forward q d c p frame s (some tx)
        ≡ ok (
            sent_or_dropped q d c p
              (filled (Pool.get q s.pool).1 bytes frame)
              (c.try_send (filled (Pool.get q s.pool).1 bytes frame) tx)
              (record s { pool = (Pool.get q s.pool).0 }))
  unfolding forward set_len
  forward-eq p frame s tx bytes own short =
      let len : min (length frame) max_frame_size ≡ length frame = omega arith in
      rw
        (
          len,
          take_all (length frame) frame (omega arith),
          write_payload_lem {E = EoipError} (Pool.get q s.pool).1 bytes frame own short,
        )
        refl

  connected-count_rx :
      (now p size : ℕ) (s : RxState q d c)
      → (((count_rx q d c now p size s).handles p).rx_channel ≡ (s.handles p).rx_channel)
        × (((count_rx q d c now p size s).handles p).stats.rx_packets
            ≡ add_u64 (s.handles p).stats.rx_packets 1)
  unfolding count_rx
  connected-count_rx now p size s = (
    ap (λ h. h.rx_channel) (put_self p _ s.handles),
    ap (λ h. h.stats.rx_packets) (put_self p _ s.handles),
  )

  sent_or_dropped_taken :
      (p : ℕ) (b : PacketBuf) (r : c.Sender × Bool) (s : RxState q d c)
      → r.1 ≡ true
      → (((sent_or_dropped q d c p b r s).handles p).rx_channel ≡ some r.0)
        × (((sent_or_dropped q d c p b r s).handles p).stats.rx_packets
            ≡ (s.handles p).stats.rx_packets)
  unfolding sent_or_dropped
  sent_or_dropped_taken p b (tx, true) s taken = (
    ap (λ h. h.rx_channel) (put_self p _ s.handles),
    ap (λ h. h.stats.rx_packets) (put_self p _ s.handles),
  )
  sent_or_dropped_taken p b (tx, false) s taken = cc

  delivered :
      (now p : ℕ) (frame : List ℕ) (s : RxState q d c) (tx : c.Sender)
      → IsReady q s.pool
      → length frame ≤ max_frame_size
      → HasRoom tx
      → (s.handles p).rx_channel ≡ some tx
      → IsDelivered s p tx frame (
          forward q d c p frame
            (count_rx q d c now p (length frame) s)
            ((count_rx q d c now p (length frame) s).handles p).rx_channel)
  delivered now p frame s tx ready short room link =
      let s1 = count_rx q d c now p (length frame) s in
      let (kept, fresh) = get-IsFresh q s.pool ready in
      let (bytes, own) = fresh.box in
      let (same, more) = connected-count_rx now p (length frame) s in
      let pool : s1.pool ≡ s.pool = unfold count_rx in refl in
      let b = filled (Pool.get q s.pool).1 bytes frame in
      let s2 = record s1 { pool = (Pool.get q s.pool).0 } in
      let (there, still) = sent_or_dropped_taken p b (c.try_send b tx) s2 (room b) in
      record {
        after = sent_or_dropped q d c p b (c.try_send b tx) s2;
        made =
            ap (forward q d c p frame s1) (same ∙ link)
            ∙ (unfold count_rx in forward-eq p frame s1 tx bytes own short);
        buf = b;
        shows = filled_shows (Pool.get q s.pool).1 bytes frame own short;
        queue = (c.try_send b tx).0;
        connected = there;
        sent = c.try_send_taken b tx (room b);
        counted = still ∙ more;
      }

  -- Receiving a packet that decodes to the id of a known tunnel.
  arrives_v4 :
      (now elapsed p tid plen : ℕ) (frame : List ℕ) (s : RxState q d c) (tx : c.Sender)
      (registry : d.Map) (peer : IpAddr)
      → IsReady q s.pool
      → length frame ≤ max_frame_size
      → 0 < length frame
      → 0 < plen
      → HasRoom tx
      → (s.handles p).rx_channel ≡ some tx
      → Registry.get d (record { tunnel_id = tid; peer_addr = peer }) registry ≡ some p
      → IsDelivered s p tx frame (
          decoded_v4 q d c now elapsed registry peer
            (GreCodec.header_bytes tid plen ++ frame)
            s
            (ok (tid, plen, 8)))
  unfolding decoded_v4
  arrives_v4 now elapsed p tid plen frame s tx registry peer ready short some_frame some_plen room
        link known =
      let no_plen : (plen == 0) ≡ false = ground arith in
      let no_frame : (length frame == 0) ≡ false = ground arith in
      rw (known, no_plen, no_frame) (delivered now p frame s tx ready short room link)

  arrives_v6 :
      (now elapsed p tid : ℕ) (frame junk : List ℕ) (s : RxState q d c) (tx : c.Sender)
      (registry : d.Map) (peer : IpAddr)
      → IsReady q s.pool
      → length frame ≤ max_frame_size
      → 0 < length frame
      → HasRoom tx
      → (s.handles p).rx_channel ≡ some tx
      → Registry.get d (record { tunnel_id = tid; peer_addr = peer }) registry ≡ some p
      → IsDelivered s p tx frame (
          decoded_v6 q d c now elapsed registry peer
            (EtheripCodec.header_bytes tid ++ (frame ++ junk))
            (length frame + 2)
            s
            (ok (tid, 2)))
  unfolding decoded_v6
  arrives_v6 now elapsed p tid frame junk s tx registry peer ready short some_frame room link
        known =
      let no_frame : (length frame == 0) ≡ false = ground arith in
      let two : length frame + 2 ≡ suc (suc (length frame)) = omega arith in
      let cut : slice {E = EoipError} (EtheripCodec.header_bytes tid ++ (frame ++ junk)) 2
            (length frame + 2)
          ≡ ok frame =
        rw two (slice_to_front frame junk) in
      rw (cut, known, no_frame) (delivered now p frame s tx ready short room link)

  -- An IPv4 packet from a tunnel's peer, with or without options, behind whose header stand the EoIP
  -- header that the sender writes and a frame of 1 to 1522 bytes, and which may be followed by old
  -- bytes in the buffer: where the tunnel is registered, its channel has room and the pool's buffers
  -- have their boxes, the result is the delivery of exactly that frame to that tunnel.
  pub process_v4_packet_delivers :
      (now elapsed p tid b0 o1 o2 o3 o4 : ℕ) (front back frame junk : List ℕ) (s : RxState q d c)
      (tx : c.Sender) (registry : d.Map)
      → length front ≡ 11
      → bit_and b0 0x0F * 4 ≡ 16 + length back
      → 4 ≤ length back
      → 0 < length frame
      → length frame ≤ max_frame_size
      → IsReady q s.pool
      → HasRoom tx
      → (s.handles p).rx_channel ≡ some tx
      → Registry.get d (record { tunnel_id = tid; peer_addr = v4 o1 o2 o3 o4 }) registry ≡ some p
      → IsDelivered s p tx frame (
          process_v4_packet q d c now elapsed registry
            (ipv4_packet b0 front o1 o2 o3 o4 back
              ((GreCodec.header_bytes tid (length frame) ++ frame) ++ junk))
            (28 + (length back - 4) + length frame)
            s)
  unfolding process_v4_packet
  process_v4_packet_delivers now elapsed p tid b0 o1 o2 o3 o4 front back frame junk s tx registry
        eleven ihl options some_frame short ready room link known =
      let wire = GreCodec.header_bytes tid (length frame) ++ frame in
      let n = 28 + (length back - 4) + length frame in
      let long : ltb n 20 ≡ false = le→not_ltb n 20 (omega arith) in
      let enough : ltb n (16 + length back + 8) ≡ false =
        le→not_ltb n (16 + length back + 8) (omega arith) in
      let tail = o1 ∷ o2 ∷ o3 ∷ o4 ∷ (back ++ (wire ++ junk)) in
      let pre = b0 ∷ front in
      let buf = ipv4_packet b0 front o1 o2 o3 o4 back (wire ++ junk) in
      let i1 : index {E = EoipError} buf 12 ≡ ok o1 = index_source b0 front tail 0 eleven in
      let i2 : index {E = EoipError} buf 13 ≡ ok o2 = index_source b0 front tail 1 eleven in
      let i3 : index {E = EoipError} buf 14 ≡ ok o3 = index_source b0 front tail 2 eleven in
      let i4 : index {E = EoipError} buf 15 ≡ ok o4 = index_source b0 front tail 3 eleven in
      let payload : slice {E = EoipError} buf (16 + length back) n ≡ ok wire =
        slice_payload b0 o1 o2 o3 o4 front back wire junk n eleven (omega arith) in
      rw (long, ihl, enough)
        (rw (i1, i2, i3, i4, payload)
          (rw (GreCodec.decode-header_bytes tid (length frame) frame) (
            arrives_v4 now elapsed p tid (length frame) frame s tx registry (v4 o1 o2 o3 o4) ready
              short some_frame some_frame room link known)))

  -- An EoIPv6 packet from a tunnel's peer, as the kernel gives it without its IPv6 header, for a 12-bit
  -- id and a frame of 1 to 1522 bytes, and again with old bytes behind it: where the
  -- tunnel is registered, its channel has room and the pool's buffers have their boxes, the result is
  -- the delivery of exactly that frame to that tunnel.
  pub process_v6_packet_delivers :
      (now elapsed p tid : ℕ) (frame junk : List ℕ) (s : RxState q d c) (tx : c.Sender)
      (registry : d.Map) (peer : IpAddr)
      → tid < 4096
      → 0 < length frame
      → length frame ≤ max_frame_size
      → IsReady q s.pool
      → HasRoom tx
      → (s.handles p).rx_channel ≡ some tx
      → Registry.get d (record { tunnel_id = tid; peer_addr = peer }) registry ≡ some p
      → IsDelivered s p tx frame (
          process_v6_packet q d c now elapsed registry
            (EtheripCodec.header_bytes tid ++ (frame ++ junk))
            (length frame + 2)
            peer
            s)
  unfolding process_v6_packet
  process_v6_packet_delivers now elapsed p tid frame junk s tx registry peer small some_frame short
        ready room link known =
      let long : ltb (length frame + 2) 2 ≡ false = le→not_ltb (length frame + 2) 2 (omega arith) in
      let front : slice_to {E = EoipError} (EtheripCodec.header_bytes tid ++ (frame ++ junk))
            (length frame + 2)
          ≡ ok (EtheripCodec.header_bytes tid ++ frame) =
        slice_cut (EtheripCodec.header_bytes tid ++ (frame ++ junk)) []
          (EtheripCodec.header_bytes tid ++ frame) junk 0 (length frame + 2) refl refl
          (omega arith) in
      rw (long, front)
        (rw (EtheripCodec.decode-header_bytes tid frame small) (
          arrives_v6 now elapsed p tid frame junk s tx registry peer ready short some_frame room
            link known))
