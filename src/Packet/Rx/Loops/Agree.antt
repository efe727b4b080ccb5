-- ===== src/Packet/Rx/Loops/Agree.antt =====
-- That the receive loops process the same packets in the same way.
use eo_ip_rs.Base.{
  leb, lt→not_leb, length, drop, All, length-append, drop-append_length, Result, ok, err, panic,
  ◌>>=◌, slice_from, slice_from_lem, ℕ, zero, suc, ◌+◌, ◌-◌, ◌≤◌, ◌<◌, ◌≡◌, refl, sym, ap, ◌∙◌,
  false, List, [], ◌∷◌, ◌++◌, map, arith,
}
use eo_ip_rs.Proto.Error.{EoipError}
use eo_ip_rs.Proto.Types.{DemuxKey}
use eo_ip_rs.Packet.Buffer.{PacketBuf}
use eo_ip_rs.Packet.Pool.{ArrayQueue}
use eo_ip_rs.Tunnel.Registry.{DashMap}
use eo_ip_rs.Packet.Rx.{Channel, RxState, process_v4_packet}
use eo_ip_rs.Packet.Mmap.Chain.{>>=-pointwise}
use eo_ip_rs.Packet.Rx.Loops.{
  Turn, cancelled, again, broken, received, unsupported, idle, took, process_all, single_loop,
  batch_loop, probed_loop, Arrival, process_v4, process_framed, rx_loop_v4, rx_loop_v4_afpacket,
}

-- What the turns before the end of a loop received.
abbrev pub arrived : {A : Type 0} → List (Turn A) → List A
arrived [] = []
arrived (cancelled ∷ turns) = []
arrived (again ∷ turns) = arrived turns
arrived (broken ∷ turns) = []
arrived (received a ∷ turns) = a ∷ arrived turns

abbrev pub concat {ℓ} : {A : Type ℓ} → List (List A) → List A
concat [] = []
concat (xs ∷ lists) = xs ++ concat lists

>>=_assoc :
    {A B C E : Type 0} (r : Result A E) (f : A → Result B E) (g : B → Result C E)
    → ((r >>= f) >>= g) ≡ (r >>= λ a. f a >>= g)
>>=_assoc (ok a) f g = refl
>>=_assoc (err e) f g = refl
>>=_assoc panic f g = refl

module _ {A S E : Type 0} (process : A → S → Result S E) where
  process_all-append :
      (xs bs : List A) (s : S)
      → process_all process (xs ++ bs) s ≡ (process_all process xs s >>= process_all process bs)
  unfolding process_all
  process_all-append [] bs s = refl
  process_all-append (a ∷ xs) bs s =
      >>=-pointwise (process a s) _ (λ t. process_all process xs t >>= process_all process bs)
        (process_all-append xs bs)
      ∙ sym (>>=_assoc (process a s) (process_all process xs) (process_all process bs))

  pub single_loop_lem :
      (turns : List (Turn A)) (s : S)
      → single_loop process turns s ≡ process_all process (arrived turns) s
  unfolding single_loop process_all
  single_loop_lem [] s = refl
  single_loop_lem (cancelled ∷ turns) s = refl
  single_loop_lem (again ∷ turns) s = single_loop_lem turns s
  single_loop_lem (broken ∷ turns) s = refl
  single_loop_lem (received a ∷ turns) s =
      >>=-pointwise (process a s) (single_loop process turns) (process_all process (arrived turns))
        (single_loop_lem turns)

  pub batch_loop_lem :
      (turns : List (Turn (List A))) (s : S)
      → batch_loop process turns s ≡ process_all process (concat (arrived turns)) s
  unfolding batch_loop process_all
  batch_loop_lem [] s = refl
  batch_loop_lem (cancelled ∷ turns) s = refl
  batch_loop_lem (again ∷ turns) s = batch_loop_lem turns s
  batch_loop_lem (broken ∷ turns) s = refl
  batch_loop_lem (received batch ∷ turns) s =
      >>=-pointwise (process_all process batch s) (batch_loop process turns)
        (process_all process (concat (arrived turns))) (batch_loop_lem turns)
      ∙ sym (process_all-append batch (concat (arrived turns)) s)

module _ (q : ArrayQueue PacketBuf) (d : DashMap DemuxKey ℕ) (c : Channel PacketBuf) where
  -- A packet behind an Ethernet header.
  abbrev pub framed : List ℕ × Arrival q d c → Arrival q d c
  framed (header, a) = record a { buf = header ++ a.buf; size = 14 + a.size }

  drop_header : (header bytes : List ℕ) → length header ≡ 14 → drop 14 (header ++ bytes) ≡ bytes
  drop_header header bytes size = rw (sym size) (drop-append_length header bytes)

  process_v4-short :
      (a : Arrival q d c) (s : RxState q d c) → a.size ≡ 0 → process_v4 q d c a s ≡ ok s
  unfolding process_v4 process_v4_packet
  process_v4-short a s short = rw short refl

  process_framed-long :
      (a : Arrival q d c) (s : RxState q d c) (bytes : List ℕ)
      → 14 < a.size
      → slice_from {E = EoipError} a.buf 14 ≡ ok bytes
      → process_framed q d c a s ≡ process_v4 q d c (record a { buf = bytes; size = a.size - 14 }) s
  unfolding process_framed
  process_framed-long a s bytes long behind =
      let more : (leb a.size 14 ≡ false) = lt→not_leb a.size 14 long in rw (more, behind) refl

  process_framed-short :
      (a : Arrival q d c) (s : RxState q d c) → a.size ≡ 14 → process_framed q d c a s ≡ ok s
  unfolding process_framed
  process_framed-short a s short = rw short refl

  process_framed-framed :
      (header : List ℕ) (a : Arrival q d c) (s : RxState q d c) (n : ℕ)
      → a.size ≡ n
      → length header ≡ 14
      → process_framed q d c (framed (header, a)) s ≡ process_v4 q d c a s
  process_framed-framed header a s zero short size =
      process_framed-short (framed (header, a)) s (omega arith) ∙ sym (process_v4-short a s short)
  process_framed-framed header a s (suc n) long size =
      let whole : (14 ≤ length (header ++ a.buf)) = rw (length-append header a.buf) (omega arith) in
      let behind : (slice_from {E = EoipError} (header ++ a.buf) 14 ≡ ok a.buf) =
        slice_from_lem (header ++ a.buf) 14 whole ∙ ap ok (drop_header header a.buf size) in
      let back : (14 + a.size - 14 ≡ a.size) = omega arith in
      process_framed-long (framed (header, a)) s a.buf (omega arith) behind
      ∙ ap (λ m. process_v4 q d c (record a { size = m }) s) back

  process_all-framed :
      (frames : List (List ℕ × Arrival q d c)) (s : RxState q d c)
      → All (λ f. length f.0 ≡ 14) frames
      → process_all (process_framed q d c) (map framed frames) s
        ≡ process_all (process_v4 q d c) (map (λ f. f.1) frames) s
  unfolding process_all
  process_all-framed [] s all = refl
  process_all-framed ((header, a) ∷ frames) s (size, all) =
      rw (process_framed-framed header a s a.size refl size) (
        >>=-pointwise (process_v4 q d c a s) _
          (process_all (process_v4 q d c) (map (λ f. f.1) frames))
          (λ t. process_all-framed frames t all))

  -- On the same packets in the same order the loop that takes batches, the one that takes one packet
  -- at a time and the one on an AF_PACKET socket, where each packet stands behind 14 bytes of an
  -- Ethernet header, end in the same state, however the packets are split into batches.
  pub loops_agree :
      (frames : List (List ℕ × Arrival q d c)) (s : RxState q d c)
      (singles : List (Turn (Arrival q d c)))
      (batches on_ethernet : List (Turn (List (Arrival q d c))))
      → All (λ f. length f.0 ≡ 14) frames
      → arrived singles ≡ map (λ f. f.1) frames
      → concat (arrived batches) ≡ map (λ f. f.1) frames
      → concat (arrived on_ethernet) ≡ map framed frames
      → (rx_loop_v4 q d c unsupported batches singles s ≡ rx_loop_v4 q d c idle batches singles s)
        × (rx_loop_v4_afpacket q d c on_ethernet s ≡ rx_loop_v4 q d c idle batches singles s)
  unfolding rx_loop_v4 probed_loop rx_loop_v4_afpacket
  loops_agree frames s singles batches on_ethernet headers at_singles at_batches at_ethernet =
      let batched = batch_loop_lem (process_v4 q d c) batches s in
      let single = single_loop_lem (process_v4 q d c) singles s in
      let ethernet = batch_loop_lem (process_framed q d c) on_ethernet s in
      (
        rw (batched, single, at_singles, at_batches) refl,
        rw (batched, ethernet, at_batches, at_ethernet) (process_all-framed frames s headers),
      )

  -- A packet that the probe takes is lost: on a queue of packets, the loop that reads them one at a
  -- time processes all, the loop by batches only those behind the first.
  pub rx_loop_v4-probed :
      (first : Arrival q d c) (others : List (Arrival q d c)) (s : RxState q d c)
      (singles : List (Turn (Arrival q d c))) (batches : List (Turn (List (Arrival q d c))))
      → arrived singles ≡ first ∷ others
      → concat (arrived batches) ≡ others
      → (rx_loop_v4 q d c unsupported batches singles s
          ≡ (process_v4 q d c first s >>= process_all (process_v4 q d c) others))
        × (rx_loop_v4 q d c (took first) batches singles s
            ≡ process_all (process_v4 q d c) others s)
  unfolding rx_loop_v4 probed_loop process_all
  rx_loop_v4-probed first others s singles batches at_singles at_batches = (
    rw (single_loop_lem (process_v4 q d c) singles s, at_singles) refl,
    rw (batch_loop_lem (process_v4 q d c) batches s, at_batches) refl,
  )
