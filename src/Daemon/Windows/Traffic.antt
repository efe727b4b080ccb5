-- ===== src/Daemon/Windows/Traffic.antt =====
-- The traffic between a daemon on Windows and another daemon, on Windows or on Linux.
use eo_ip_rs.Base.{
  ltb, ◌==◌, le→not_ltb, le→leb, length, take, drop, All, length-append, length-take, length-drop,
  take_all, ok, slice_to, slice, slice_lem, ℕ, ◌+◌, ◌-◌, ◌≤◌, ◌<◌, ◌≡◌, refl, sym, ap, ◌∙◌, subst,
  Bool, true, false, some, List, [], ◌∷◌, ◌++◌, map, append-nil, append_assoc, arith,
}
use eo_ip_rs.Proto.Error.{EoipError}
use eo_ip_rs.Proto.Types.{DemuxKey}
use eo_ip_rs.Proto.Types.Addr.{v4}
use eo_ip_rs.Proto.Gre.Codec as GreCodec
use eo_ip_rs.Packet.Buffer.{PacketBuf}
use eo_ip_rs.Packet.Pool.{ArrayQueue}
use eo_ip_rs.Packet.Pool.Accounts.{IsReady}
use eo_ip_rs.Packet.Rx.{Channel, RxState, process_v4_packet}
use eo_ip_rs.Packet.Rx.Layout.{ipv4_packet, slice_to_front}
use eo_ip_rs.Packet.Rx.Delivery.{IsDelivered, HasRoom, process_v4_packet_delivers}
use eo_ip_rs.Tunnel.Registry
use eo_ip_rs.Tunnel.Registry.{DashMap}
use eo_ip_rs.Daemon.Windows.{
  WinTx, tx_sent, tx_turn, tx_loop, WinRx, rx_turn, rx_loop, count_received,
}
use eo_ip_rs.Daemon.Windows.Headers.{ip_front, copied_behind, with_headers_lem}

module _ (send : List ℕ → Bool) (a b c d a' b' c' d' tid : ℕ) where
  -- The packet for a frame.
  abbrev pub packet_of : List ℕ → List ℕ
  packet_of frame =
      ipv4_packet 0x45 (ip_front (28 + length frame)) a b c d (a' ∷ b' ∷ c' ∷ d' ∷ [])
        (GreCodec.header_bytes tid (length frame) ++ frame)

  -- A frame of 1 to 1522 bytes, which WinDivert takes: one packet more, with the two headers and the
  -- frame, and one packet counted.
  tx_turn_lem :
      (frame : List ℕ) (s : WinTx)
      → length s.pkt ≡ 1550
      → 0 < length frame
      → length frame ≤ 1522
      → send (packet_of frame) ≡ true
      → (s' : WinTx) × (tx_turn send (v4 a b c d) (v4 a' b' c' d') tid frame s ≡ ok s')
        × (s'.sent ≡ s.sent ++ packet_of frame ∷ [])
        × (length s'.pkt ≡ 1550)
  unfolding tx_turn tx_sent
  tx_turn_lem frame s size some_frame short taken =
      let ip = take 20 s.pkt in
      let header = take 8 (drop 20 s.pkt) in
      let room = drop 8 (drop 20 s.pkt) in
      let rest = drop (length frame) room in
      let lens = length-drop 20 s.pkt in
      let size_ip : length ip ≡ 20 = omega (arith, length-take 20 s.pkt) in
      let size_header : length header ≡ 8 = omega (arith, length-take 8 (drop 20 s.pkt), lens) in
      let size_room : length room ≡ 1522 = omega (arith, length-drop 8 (drop 20 s.pkt), lens) in
      let copied = copied_behind s.pkt frame size short in
      let headed =
        with_headers_lem send a b c d a' b' c' d' tid (length frame) ip header (frame ++ rest)
          size_ip size_header (omega arith) in
      let nz : (length frame == 0) ≡ false = ground arith in
      let cut = slice_to_front (packet_of frame) rest in
      let behind : 28 + length frame ≡ length (packet_of frame) = omega arith in
      let read : slice_to {E = EoipError} (packet_of frame ++ rest) (28 + length frame)
          ≡ ok (packet_of frame) =
        ap (slice_to {E = EoipError} (packet_of frame ++ rest)) behind ∙ cut in
      (
        tx_sent send (v4 a b c d) (v4 a' b' c' d') tid (length frame) (packet_of frame) true
            (record s { pkt = packet_of frame ++ rest }),
        rw (nz, copied, headed, read, taken) refl,
        refl,
        omega (arith, length-append frame rest, length-drop (length frame) room, size_room),
      )

  -- A packet of the sending thread, at a daemon with the tunnel: its frame is written, and one packet
  -- counted.
  rx_turn_lem :
      (now : ℕ) (frame : List ℕ) (r : WinRx)
      → 0 < length frame
      → length frame ≤ 1522
      → (r' : WinRx) × (rx_turn now tid (packet_of frame) r ≡ ok r')
        × (r'.written ≡ r.written ++ frame ∷ [])
        × (r'.reinjected ≡ r.reinjected)
  unfolding rx_turn
  rx_turn_lem now frame r some_frame short =
      let wire = GreCodec.header_bytes tid (length frame) ++ frame in
      let long = le→not_ltb (length (packet_of frame)) 20 (omega arith) in
      let enough = le→not_ltb (length (packet_of frame)) 28 (omega arith) in
      let decoded = GreCodec.decode-header_bytes tid (length frame) frame in
      let same : (tid == tid) ≡ true = ground arith in
      let states : ltb 0 (length frame) ≡ true = ground arith in
      let holds = le→leb (8 + length frame) (length wire) (omega arith) in
      let cut : slice {E = EoipError} wire 8 (8 + length frame) ≡ ok frame =
        slice_lem {E = EoipError} wire 8 (8 + length frame) (omega arith) (omega arith)
        ∙ ap ok (take_all (8 + length frame - 8) frame (omega arith)) in
      (
        record (count_received now (length frame) r) { written = r.written ++ frame ∷ [] },
        rw (long, enough, decoded, same, states, holds, cut) refl,
        refl,
        refl,
      )

  abbrev pub Fits : List ℕ → Type 0
  Fits frame = (0 < length frame) × (length frame ≤ 1522)

  tx_loop_lem :
      (frames : List (List ℕ)) (s : WinTx)
      → length s.pkt ≡ 1550
      → All Fits frames
      → ((packet : List ℕ) → send packet ≡ true)
      → (s' : WinTx) × (tx_loop send (v4 a b c d) (v4 a' b' c' d') tid (map ok frames) s ≡ ok s')
        × (s'.sent ≡ s.sent ++ map packet_of frames)
  unfolding tx_loop
  tx_loop_lem [] s size fit takes = (s, refl, sym (append-nil s.sent))
  tx_loop_lem (frame ∷ frames) s size ((some_frame, short), fit) takes =
      let (after, turned, one, kept) =
        tx_turn_lem frame s size some_frame short (takes (packet_of frame)) in
      let (s', rest, sent) = tx_loop_lem frames after kept fit takes in
      (
        s',
        rw turned rest,
        sent
            ∙ (ap (λ t. t ++ map packet_of frames) one
                ∙ append_assoc s.sent (packet_of frame ∷ []) (map packet_of frames)),
      )

  rx_loop_lem :
      (now : ℕ) (frames : List (List ℕ)) (r : WinRx)
      → All Fits frames
      → (r' : WinRx) × (rx_loop tid (map (λ packet. ok (now, packet)) (map packet_of frames)) r
          ≡ ok r')
        × (r'.written ≡ r.written ++ frames)
        × (r'.reinjected ≡ r.reinjected)
  unfolding rx_loop
  rx_loop_lem now [] r fit = (r, refl, sym (append-nil r.written), refl)
  rx_loop_lem now (frame ∷ frames) r ((some_frame, short), fit) =
      let (after, turned, wrote, kept) = rx_turn_lem now frame r some_frame short in
      let (r', rest, written, left) = rx_loop_lem now frames after fit in
      (
        r',
        rw turned rest,
        written ∙ (ap (λ t. t ++ frames) wrote ∙ append_assoc r.written (frame ∷ []) frames),
        left ∙ kept,
      )

  -- Frames of 1 to 1522 bytes that the device gives to a daemon over IPv4, whose packets WinDivert
  -- takes: it sends one packet for each, in order, which is the two headers and the frame, and a daemon
  -- with the same tunnel id that receives these packets writes exactly these frames, in order, and
  -- puts no packet back.
  pub rx_loop-tx_loop :
      (now : ℕ) (frames : List (List ℕ)) (s : WinTx) (r : WinRx)
      → length s.pkt ≡ 1550
      → All Fits frames
      → ((packet : List ℕ) → send packet ≡ true)
      → (s' : WinTx) × (r' : WinRx) × (tx_loop send
            (v4 a b c d)
            (v4 a' b' c' d')
            tid
            (map ok frames)
            s
          ≡ ok s')
        × (s'.sent ≡ s.sent ++ map packet_of frames)
        × (rx_loop tid (map (λ packet. ok (now, packet)) (map packet_of frames)) r ≡ ok r')
        × (r'.written ≡ r.written ++ frames)
        × (r'.reinjected ≡ r.reinjected)
  rx_loop-tx_loop now frames s r size fit takes =
      let (s', went, sent) = tx_loop_lem frames s size fit takes in
      let (r', came, written, left) = rx_loop_lem now frames r fit in
      (s', r', went, sent, came, written, left)

  -- A frame of 1 to 1522 bytes that the device gives to a daemon over IPv4, whose packet WinDivert
  -- takes: where a daemon on Linux has the tunnel registered for the sender, with room in its channel,
  -- receiving that packet, old bytes behind it or not, is the delivery of exactly that frame.
  pub process_v4_packet-tx_turn :
      (q : ArrayQueue PacketBuf) (m : DashMap DemuxKey ℕ) (ch : Channel PacketBuf)
      (now elapsed p : ℕ) (frame junk : List ℕ) (s : WinTx) (rx : RxState q m ch) (tx : ch.Sender)
      (registry : m.Map)
      → length s.pkt ≡ 1550
      → Fits frame
      → ((packet : List ℕ) → send packet ≡ true)
      → IsReady q rx.pool
      → HasRoom q m ch tx
      → (rx.handles p).rx_channel ≡ some tx
      → Registry.get m (record { tunnel_id = tid; peer_addr = v4 a b c d }) registry ≡ some p
      → (s' : WinTx) × (packet : List ℕ) × (tx_turn send (v4 a b c d) (v4 a' b' c' d') tid frame s
          ≡ ok s')
        × (s'.sent ≡ s.sent ++ packet ∷ [])
        × IsDelivered q m ch rx p tx frame
            (process_v4_packet q m ch now elapsed registry (packet ++ junk) (length packet) rx)
  process_v4_packet-tx_turn q m ch now elapsed p frame junk s rx tx registry size
        (some_frame, short) takes ready room link known =
      let (s', turned, one, kept) =
        tx_turn_lem frame s size some_frame short (takes (packet_of frame)) in
      let whole : 28 + (4 - 4) + length frame ≡ length (packet_of frame) = omega arith in
      (
        s',
        packet_of frame,
        turned,
        one,
        subst
            (λ n.
              IsDelivered q m ch rx p tx frame
                (process_v4_packet q m ch now elapsed registry (packet_of frame ++ junk) n rx))
            whole
            (process_v4_packet_delivers q m ch now elapsed p tid 0x45 a b c d
              (ip_front (28 + length frame)) (a' ∷ b' ∷ c' ∷ d' ∷ []) frame junk rx tx registry refl
              refl (omega arith) some_frame short ready room link known),
      )
