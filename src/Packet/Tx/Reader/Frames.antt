-- ===== src/Packet/Tx/Reader/Frames.antt =====
-- What the loop over a device hands to the batcher, and what the batcher makes of it.
use eo_ip_rs.Base.{
  length, All, Result, ok, err, ℕ, ◌≤◌, ◌≡◌, refl, sym, ap, ◌∙◌, subst, Bool, true, false, List, [],
  ◌∷◌, ◌++◌, map, append-nil, append_assoc,
}
use eo_ip_rs.Proto.Error.{EoipError}
use eo_ip_rs.Proto.Gre.Codec as GreCodec
use eo_ip_rs.Proto.Types.Addr.{is_ipv6}
use eo_ip_rs.Config.{TunnelConfig}
use eo_ip_rs.Packet.Buffer.{PacketBuf, as_slice, max_frame_size}
use eo_ip_rs.Packet.Pool
use eo_ip_rs.Packet.Pool.{ArrayQueue, BufferPool}
use eo_ip_rs.Packet.Pool.Accounts.{IsReady, get-IsFresh, drop_buf-IsReady}
use eo_ip_rs.Packet.Tx.{TxPacket, IoError, would_block, to_socket_addr, read_and_encode, count_tx}
use eo_ip_rs.Packet.Tx.Encoded.Outcome.{read_and_encode_v4-IsMade}
use eo_ip_rs.Packet.Tx.Batcher.{Outgoing, Event, received, run_batcher}
use eo_ip_rs.Packet.Tx.Batcher.Runs.{packets, concat, IsEnding, concat-run_batcher, IsQuiet}
use eo_ip_rs.Packet.Tx.Reader.{ReadTurn, device, ReaderState, read_loop, spawn_tap_reader}

-- The packets are those that the batcher takes, by their bytes and their destinations.
abbrev pub IsShown : List TxPacket → List Outgoing → Type 0
IsShown [] [] = Unit
IsShown (p ∷ ps) (out ∷ outs) =
    (as_slice {E = EoipError} p.buf ≡ ok out.bytes) × (p.dest ≡ out.dest) × IsShown ps outs
IsShown ps outs = ⊥

-- The device gives a frame that fits and the channel takes the packet, or the device has none yet.
abbrev pub IsLive : ReadTurn → Type 0
IsLive (device now (ok frame) true) = length frame ≤ max_frame_size
IsLive (device now (err would_block) taken) = Unit
IsLive answer = ⊥

abbrev pub frames_of : List ReadTurn → List (List ℕ)
frames_of [] = []
frames_of (device now (ok frame) taken ∷ answers) = frame ∷ frames_of answers
frames_of (answer ∷ answers) = frames_of answers

-- The EoIP header of the tunnel in front of the frame, for the tunnel's peer.
abbrev pub outgoing : TunnelConfig → List ℕ → Outgoing
outgoing config frame = record {
  bytes = GreCodec.header_bytes config.tunnel_id (length frame) ++ frame;
  dest = to_socket_addr config.remote;
}

quiet : (outs : List Outgoing) → IsQuiet (map received outs)
quiet [] = tt
quiet (out ∷ outs) = quiet outs

packets-received : (outs : List Outgoing) → packets (map received outs) ≡ outs
packets-received [] = refl
packets-received (out ∷ outs) = ap (λ t. out ∷ t) (packets-received outs)

concat-received :
    (low high : ℕ) (outs : List Outgoing) (end : List Event)
    → IsEnding end
    → concat (run_batcher low high (map received outs ++ end)) ≡ outs
concat-received low high outs end ending =
    concat-run_batcher low high (map received outs) end (quiet outs) ending ∙ packets-received outs

module _ (q : ArrayQueue PacketBuf) (Sender : Type 0) where
  -- A loop that ends with the packets for some frames.
  pub record IsHanded (config : TunnelConfig) (frames : List (List ℕ)) (sent : List TxPacket)
      (r : Result (ReaderState q Sender) IoError) : Type 0 where
    pub after : ReaderState q Sender
    pub ends : r ≡ ok after
    pub packets : List TxPacket
    pub sent_on : after.sent ≡ sent ++ packets
    pub are_shown : IsShown packets (map (outgoing config) frames)

  round_frame :
      (now : ℕ) (frame : List ℕ) (s : ReaderState q Sender)
      → IsReady q s.pool
      → length frame ≤ max_frame_size
      → (p : TxPacket) × (next : ReaderState q Sender) × ((answers : List ReadTurn)
          → read_loop q Sender false (device now (ok frame) true ∷ answers) s
            ≡ read_loop q Sender false answers next)
        × (next.sent ≡ s.sent ++ p ∷ [])
        × (next.handle.config ≡ s.handle.config)
        × IsReady q next.pool
        × (as_slice {E = EoipError} p.buf ≡ ok (outgoing s.handle.config frame).bytes)
        × (p.dest ≡ (outgoing s.handle.config frame).dest)
  unfolding read_loop count_tx
  round_frame now frame s ready short =
      let made = read_and_encode_v4-IsMade q now frame s.handle s.pool ready short in
      (
        made.packet,
        record {
          pool = (Pool.get q s.pool).0;
          handle = count_tx now (length frame) s.handle;
          sent = s.sent ++ made.packet ∷ [];
        },
        λ answers. rw made.is refl,
        refl,
        refl,
        made.ready,
        made.shows,
        made.dest,
      )

  -- The buffer that was taken for the read goes back.
  returned_buffer : ReaderState q Sender → ReaderState q Sender
  returned_buffer s = record s {
    pool = Pool.drop_buf q (Pool.get q s.pool).1 (Pool.get q s.pool).0;
  }

  returned_buffer-IsReady :
      (s : ReaderState q Sender) → IsReady q s.pool → IsReady q (returned_buffer s).pool
  unfolding returned_buffer
  returned_buffer-IsReady s ready =
      let (kept, fresh) = get-IsFresh q s.pool ready in
      drop_buf-IsReady q (Pool.get q s.pool).1 (Pool.get q s.pool).0 fresh.box kept

  round_block :
      (now : ℕ) (taken : Bool) (s : ReaderState q Sender)
      → IsReady q s.pool
      → (next : ReaderState q Sender) × ((answers : List ReadTurn)
          → read_loop q Sender false (device now (err would_block) taken ∷ answers) s
            ≡ read_loop q Sender false answers next)
        × (next.sent ≡ s.sent)
        × (next.handle ≡ s.handle)
        × IsReady q next.pool
  unfolding read_loop read_and_encode returned_buffer
  round_block now true s ready =
      (returned_buffer s, λ answers. refl, refl, refl, returned_buffer-IsReady s ready)
  round_block now false s ready =
      (returned_buffer s, λ answers. refl, refl, refl, returned_buffer-IsReady s ready)

  pub read_loop-IsHanded :
      (answers : List ReadTurn) (config : TunnelConfig) (s : ReaderState q Sender)
      → s.handle.config ≡ config
      → IsReady q s.pool
      → All IsLive answers
      → IsHanded config (frames_of answers) s.sent (read_loop q Sender false answers s)
  unfolding read_loop
  read_loop-IsHanded [] config s is ready live = record {
    after = s;
    ends = refl;
    packets = [];
    sent_on = sym (append-nil s.sent);
    are_shown = tt;
  }
  read_loop-IsHanded (device now (ok frame) true ∷ answers) config s is ready (short, live) =
      let (p, next, step, sent, same, ready', shows, dest) = round_frame now frame s ready short in
      let rest = read_loop-IsHanded answers config next (same ∙ is) ready' live in
      record {
        after = rest.after;
        ends = step answers ∙ rest.ends;
        packets = p ∷ rest.packets;
        sent_on =
            rest.sent_on
            ∙ (ap (λ t. t ++ rest.packets) sent ∙ append_assoc s.sent (p ∷ []) rest.packets);
        are_shown = (
          subst (λ c. as_slice {E = EoipError} p.buf ≡ ok (outgoing c frame).bytes) is shows,
          subst (λ c. p.dest ≡ (outgoing c frame).dest) is dest,
          rest.are_shown,
        );
      }
  read_loop-IsHanded (device now (err would_block) taken ∷ answers) config s is ready (t, live) =
      let (next, step, sent, same, ready') = round_block now taken s ready in
      let rest =
        read_loop-IsHanded answers config next (ap (λ h. h.config) same ∙ is) ready' live in
      record {
        after = rest.after;
        ends = step answers ∙ rest.ends;
        packets = rest.packets;
        sent_on = rest.sent_on ∙ ap (λ t. t ++ rest.packets) sent;
        are_shown = rest.are_shown;
      }
  read_loop-IsHanded (answer ∷ answers) config s is ready (t, live) = absurd t

  -- From a device that gives frames of at most 1522 bytes or none yet, to an IPv4 peer, with a pool whose
  -- buffers have their boxes and a channel that takes every packet: the reader hands on one packet for
  -- each frame, in order, with the tunnel's header in front, for the tunnel's peer. The batcher that
  -- receives these packets, whatever its two marks, flushes exactly them, in order.
  pub spawn_tap_reader-run_batcher :
      (answers : List ReadTurn) (s : ReaderState q Sender) (low high : ℕ) (end : List Event)
      → is_ipv6 s.handle.config.remote ≡ false
      → IsReady q s.pool
      → All IsLive answers
      → IsEnding end
      → IsHanded s.handle.config (frames_of answers) s.sent (spawn_tap_reader q Sender answers s)
        × (concat (
              run_batcher low high
                (map received (map (outgoing s.handle.config) (frames_of answers)) ++ end))
            ≡ map (outgoing s.handle.config) (frames_of answers))
  unfolding spawn_tap_reader
  spawn_tap_reader-run_batcher answers s low high end over_v4 ready live ending = (
    rw over_v4 (read_loop-IsHanded answers s.handle.config s refl ready live),
    concat-received low high (map (outgoing s.handle.config) (frames_of answers)) end ending,
  )
