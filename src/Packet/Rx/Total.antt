-- ===== src/Packet/Rx/Total.antt =====
-- Reception on any bytes: no packet makes a worker panic, and the pool stays in order.
use eo_ip_rs.Base.{
  ltb, ◌==◌, Bool-cases, not_ltb→le, length, take, drop, length-take, Result, ok, err, panic, index,
  slice_to_lem, slice_from_lem, slice_lem, copy_at, length-copy_at, ℕ, zero, suc, ◌+◌, ◌-◌, ◌*◌,
  ◌≤◌, ◌<◌, min, bit_and, ◌≡◌, refl, ◌∙◌, inl, inr, Bool, true, false, ◌||◌, Option, none, some,
  List, [], ◌∷◌, arith,
}
use eo_ip_rs.Proto.Error.{EoipError}
use eo_ip_rs.Proto.Types.Addr.{IpAddr, v4}
use eo_ip_rs.Proto.Types.{DemuxKey}
use eo_ip_rs.Proto.Gre.{decode_eoip_header}
use eo_ip_rs.Proto.Etherip.{decode_eoipv6_header}
use eo_ip_rs.Proto.Etherip.Codec.{decode_eoipv6_header-ne-panic}
use eo_ip_rs.Proto.Pipeline.Safety.{decode_eoip_header-ne-panic}
use eo_ip_rs.Packet.Buffer.{PacketBuf, set_len, max_frame_size}
use eo_ip_rs.Packet.Buffer.View.{write_payload_lem, filled}
use eo_ip_rs.Packet.Pool
use eo_ip_rs.Packet.Pool.{ArrayQueue}
use eo_ip_rs.Packet.Pool.Accounts.{HasBox, IsReady, get-IsFresh, drop_buf-IsReady}
use eo_ip_rs.Tunnel.Registry.{DashMap}
use eo_ip_rs.Packet.Rx.{
  Channel, RxState, missed, count_rx, sent_or_dropped, forward, found_v4, decoded_v4,
  process_v4_packet, found_v6, decoded_v6, process_v6_packet,
}

-- A header that decodes is 8 bytes long and stands in the buffer.
decode_eoip_header_room :
    (buf : List ℕ) (r : ℕ × ℕ × ℕ) → decode_eoip_header buf ≡ ok r → (r.2 ≡ 8) × (8 ≤ length buf)
unfolding decode_eoip_header
decode_eoip_header_room (a ∷ b ∷ c ∷ d ∷ e ∷ f ∷ g ∷ h ∷ rest) r dec = ground arith
decode_eoip_header_room _ r dec = cc

decode_eoipv6_header_room :
    (buf : List ℕ) (r : ℕ × ℕ) → decode_eoipv6_header buf ≡ ok r → (r.1 ≡ 2) × (2 ≤ length buf)
unfolding decode_eoipv6_header
decode_eoipv6_header_room (a ∷ b ∷ rest) r dec = ground arith
decode_eoipv6_header_room _ r dec = cc

index_lt : (xs : List ℕ) (i : ℕ) → i < length xs → (x : ℕ) × (index {E = EoipError} xs i ≡ ok x)
index_lt [] i h = absurd (omega arith)
index_lt (x ∷ xs) zero h = (x, refl)
index_lt (x ∷ xs) (suc i) h = index_lt xs i (omega arith)

module _ (q : ArrayQueue PacketBuf) (d : DashMap DemuxKey ℕ) (c : Channel PacketBuf) where
  -- A call that returns, and leaves a pool whose buffers have their boxes.
  pub record IsFine (r : Result (RxState q d c) EoipError) : Type 0 where
    pub after : RxState q d c
    pub returns : r ≡ ok after
    pub ready : IsReady q after.pool

  sent_or_dropped-IsReady :
      (p : ℕ) (b : PacketBuf) (r : c.Sender × Bool) (s : RxState q d c)
      → HasBox b
      → IsReady q s.pool
      → IsReady q (sent_or_dropped q d c p b r s).pool
  unfolding sent_or_dropped
  sent_or_dropped-IsReady p b (tx, true) s box ready = ready
  sent_or_dropped-IsReady p b (tx, false) s box ready = drop_buf-IsReady q b s.pool box ready

  forward-IsFine :
      (p : ℕ) (frame : List ℕ) (s : RxState q d c) (o : Option c.Sender)
      → IsReady q s.pool
      → IsFine (forward q d c p frame s o)
  unfolding forward set_len
  forward-IsFine p frame s none ready = record { after = s; returns = refl; ready = ready }
  forward-IsFine p frame s (some tx) ready =
      let (kept, fresh) = get-IsFresh q s.pool ready in
      let (bytes, own) = fresh.box in
      let b = (Pool.get q s.pool).1 in
      let cut = take (min (length frame) max_frame_size) frame in
      let short : length cut ≤ max_frame_size =
        omega (arith, length-take (min (length frame) max_frame_size) frame) in
      let full = record (filled b bytes cut) { len = min (length frame) max_frame_size } in
      let box : HasBox full = (
        copy_at 64 cut bytes,
        record { owned = refl; size = length-copy_at 64 cut bytes ∙ own.size },
      ) in
      record {
        after =
            sent_or_dropped q d c p full (c.try_send full tx)
              (record s { pool = (Pool.get q s.pool).0 });
        returns = rw (write_payload_lem {E = EoipError} b bytes cut own short) refl;
        ready = sent_or_dropped-IsReady p full (c.try_send full tx) _ box kept;
      }

  pool-count_rx : (now p size : ℕ) (s : RxState q d c) → (count_rx q d c now p size s).pool ≡ s.pool
  unfolding count_rx
  pool-count_rx now p size s = refl

  fine : (s : RxState q d c) → IsReady q s.pool → IsFine (ok s)
  fine s ready = record { after = s; returns = refl; ready = ready }

  counted-IsReady :
      (now p size : ℕ) (s : RxState q d c)
      → IsReady q s.pool
      → IsReady q (count_rx q d c now p size s).pool
  counted-IsReady now p size s ready = rw (pool-count_rx now p size s) ready

  found_v4-IsFine :
      (now elapsed : ℕ) (frame : List ℕ) (plen : ℕ) (s : RxState q d c) (o : Option ℕ)
      → IsReady q s.pool
      → IsFine (found_v4 q d c now elapsed frame plen s o)
  unfolding found_v4
  found_v4-IsFine now elapsed frame plen s none ready = fine _ (unfold missed in ready)
  found_v4-IsFine now elapsed frame plen s (some p) ready =
      let s1 = count_rx q d c now p (length frame) s in
      let ready1 = counted-IsReady now p (length frame) s ready in
      elim (Bool-cases (plen == 0 || length frame == 0)) [
        | inl empty ↦ rw empty (fine s1 ready1)
        | inr full ↦ rw full (forward-IsFine p frame s1 (s1.handles p).rx_channel ready1)
      ]

  found_v6-IsFine :
      (now elapsed : ℕ) (frame : List ℕ) (s : RxState q d c) (o : Option ℕ)
      → IsReady q s.pool
      → IsFine (found_v6 q d c now elapsed frame s o)
  unfolding found_v6
  found_v6-IsFine now elapsed frame s none ready = fine _ (unfold missed in ready)
  found_v6-IsFine now elapsed frame s (some p) ready =
      let s1 = count_rx q d c now p (length frame) s in
      let ready1 = counted-IsReady now p (length frame) s ready in
      elim (Bool-cases (length frame == 0)) [
        | inl empty ↦ rw empty (fine s1 ready1)
        | inr full ↦ rw full (forward-IsFine p frame s1 (s1.handles p).rx_channel ready1)
      ]

  decoded_v4-IsFine :
      (now elapsed : ℕ) (registry : d.Map) (peer : IpAddr) (payload : List ℕ) (s : RxState q d c)
      (r : Result (ℕ × ℕ × ℕ) EoipError)
      → IsReady q s.pool
      → decode_eoip_header payload ≡ r
      → IsFine (decoded_v4 q d c now elapsed registry peer payload s r)
  unfolding decoded_v4
  decoded_v4-IsFine now elapsed registry peer payload s panic ready dec =
      absurd (decode_eoip_header-ne-panic payload dec)
  decoded_v4-IsFine now elapsed registry peer payload s (err e) ready dec = fine s ready
  decoded_v4-IsFine now elapsed registry peer payload s (ok (tid, plen, hdr)) ready dec =
      let (eight, room) = decode_eoip_header_room payload (tid, plen, hdr) dec in
      rw (eight, slice_from_lem {E = EoipError} payload 8 room)
        (found_v4-IsFine now elapsed (drop 8 payload) plen s _ ready)

  decoded_v6-IsFine :
      (now elapsed : ℕ) (registry : d.Map) (peer : IpAddr) (buf : List ℕ) (n : ℕ)
      (s : RxState q d c) (r : Result (ℕ × ℕ) EoipError)
      → IsReady q s.pool
      → n ≤ length buf
      → decode_eoipv6_header (take n buf) ≡ r
      → IsFine (decoded_v6 q d c now elapsed registry peer buf n s r)
  unfolding decoded_v6
  decoded_v6-IsFine now elapsed registry peer buf n s panic ready fits dec =
      absurd (decode_eoipv6_header-ne-panic (take n buf) dec)
  decoded_v6-IsFine now elapsed registry peer buf n s (err e) ready fits dec = fine s ready
  decoded_v6-IsFine now elapsed registry peer buf n s (ok (tid, hdr)) ready fits dec =
      let (two, room) = decode_eoipv6_header_room (take n buf) (tid, hdr) dec in
      let size = length-take n buf in
      rw (two, slice_lem {E = EoipError} buf 2 n (omega arith) fits)
        (found_v6-IsFine now elapsed (take (n - 2) (drop 2 buf)) s _ ready)

  -- Whatever the first `n` bytes of the buffer are, receiving them over IPv4 returns, without a panic
  -- or an error, and a pool whose buffers have their boxes is left so.
  pub process_v4_packet_total :
      (now elapsed : ℕ) (registry : d.Map) (buf : List ℕ) (n : ℕ) (s : RxState q d c)
      → n ≤ length buf
      → IsReady q s.pool
      → IsFine (process_v4_packet q d c now elapsed registry buf n s)
  unfolding process_v4_packet
  process_v4_packet_total now elapsed registry buf n s fits ready = elim (Bool-cases (ltb n 20)) [
    | inl short ↦ rw short (fine s ready)
    | inr long ↦
        let twenty = not_ltb→le n 20 long in
        let (b0, i0) = index_lt buf 0 (omega arith) in
        rw (long, i0)
          (elim (Bool-cases (ltb n (bit_and b0 0x0F * 4 + 8))) [
            | inl cut ↦ rw cut (fine s ready)
            | inr whole ↦
                let room = not_ltb→le n (bit_and b0 0x0F * 4 + 8) whole in
                let (o1, i1) = index_lt buf 12 (omega arith) in
                let (o2, i2) = index_lt buf 13 (omega arith) in
                let (o3, i3) = index_lt buf 14 (omega arith) in
                let (o4, i4) = index_lt buf 15 (omega arith) in
                rw whole (
                  rw
                    (
                      i1,
                      i2,
                      i3,
                      i4,
                      slice_lem {E = EoipError} buf (bit_and b0 0x0F * 4) n (omega arith) fits,
                    )
                    (decoded_v4-IsFine now elapsed registry (v4 o1 o2 o3 o4) _ s _ ready refl))
          ])
  ]

  -- Whatever the first `n` bytes of the buffer are, receiving them over IPv6 returns, without a panic
  -- or an error, and a pool whose buffers have their boxes is left so.
  pub process_v6_packet_total :
      (now elapsed : ℕ) (registry : d.Map) (buf : List ℕ) (n : ℕ) (peer : IpAddr)
      (s : RxState q d c)
      → n ≤ length buf
      → IsReady q s.pool
      → IsFine (process_v6_packet q d c now elapsed registry buf n peer s)
  unfolding process_v6_packet
  process_v6_packet_total now elapsed registry buf n peer s fits ready =
      elim (Bool-cases (ltb n 2)) [
        | inl short ↦ rw short (fine s ready)
        | inr long ↦
            rw (long, slice_to_lem {E = EoipError} buf n fits)
              (decoded_v6-IsFine now elapsed registry peer buf n s _ ready fits refl)
      ]
