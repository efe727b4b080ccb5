-- ===== src/Packet/Mmap/Chain.antt =====
-- What a walk through a block delivers, where its packets form a chain.
use eo_ip_rs.Base.{
  ◌==◌, if◌then◌else◌, length, Result, ok, err, panic, ◌>>=◌, ℕ, ◌+◌, ◌-◌, ◌≤◌, ◌<◌, ◌≡◌, refl, ◌≢◌,
  ◌%◌, true, Option, none, some, List, [], ◌∷◌, arith,
}
use eo_ip_rs.Packet.Mmap.{
  Block, PacketMmapRing, data_len, is_ready, ready_block, release, process_hdr, walk, walked,
  process_block,
}

pub >>=-pointwise {ℓ κ μ} :
    {A : Type ℓ} {B : Type κ} {E : Type μ} (r : Result A E) (f g : A → Result B E)
    → ((a : A) → f a ≡ g a)
    → (r >>= f) ≡ (r >>= g)
>>=-pointwise (ok a) f g same = same a
>>=-pointwise (err e) f g same = refl
>>=-pointwise panic f g same = refl

-- At the offset lies a packet with these bytes behind its network header: the offsets in its header
-- are 16 bits wide, and it was captured from its MAC header to its end.
pub record Holds (b : Block) (offset : ℕ) (packet : List ℕ) : Type 0 where
  pub net_small : (b.header offset).tp_net < 65536
  pub mac_le : (b.header offset).tp_mac ≤ (b.header offset).tp_net
  pub snaplen :
      (b.header offset).tp_snaplen
      ≡ ((b.header offset).tp_net - (b.header offset).tp_mac) + length packet
  pub read : b.bytes (offset + (b.header offset).tp_net) (length packet) ≡ packet

-- Packets linked by the offsets in their headers, the last with offset 0.
pub data Chain (b : Block) : ℕ → List (List ℕ) → Type 0 where
  chain_last :
      {offset : ℕ} {packet : List ℕ}
      → Holds b offset packet
      → (b.header offset).tp_next_offset ≡ 0
      → Chain b offset (packet ∷ [])
  chain_link :
      {offset : ℕ} {packet : List ℕ} {packets : List (List ℕ)}
      → Holds b offset packet
      → (b.header offset).tp_next_offset ≢ 0
      → Chain b (offset + (b.header offset).tp_next_offset) packets
      → Chain b offset (packet ∷ packets)

data_len-Holds :
    {b : Block} {offset : ℕ} {packet : List ℕ}
    → Holds b offset packet
    → data_len (b.header offset) ≡ length packet
unfolding data_len
data_len-Holds h =
    let small = h.net_small in let le = h.mac_le in let snap = h.snaplen in omega arith

ready_block_lem :
    (b : Block) (woken : Option Block) → is_ready b ≡ true → ready_block b woken ≡ some b
unfolding ready_block
ready_block_lem b none ready = ground arith
ready_block_lem b (some w) ready = ground arith

module _ {S E : Type 0} (process_pkt : List ℕ → ℕ → S → Result S E) where
  -- The packets one after the other, each with its length; those without bytes are passed over.
  abbrev pub deliver_one : List ℕ → S → Result S E
  deliver_one [] s = ok s
  deliver_one (x ∷ xs) s = process_pkt (x ∷ xs) (length (x ∷ xs)) s

  abbrev pub deliver : List (List ℕ) → S → Result S E
  deliver [] s = ok s
  deliver (packet ∷ packets) s = deliver_one packet s >>= deliver packets

  deliver_one_lem :
      (packet : List ℕ) (s : S)
      → (if length packet == 0 then ok s else process_pkt packet (length packet) s)
        ≡ deliver_one packet s
  deliver_one_lem [] s = refl
  deliver_one_lem (x ∷ xs) s = ground arith

  process_hdr-Holds :
      {b : Block} {offset : ℕ} {packet : List ℕ}
      → Holds b offset packet
      → (s : S) → process_hdr process_pkt b offset s ≡ deliver_one packet s
  unfolding process_hdr
  process_hdr-Holds {b} {offset} {packet} h s =
      rw (data_len-Holds h, h.read) (deliver_one_lem packet s)

  walk-Chain :
      {b : Block} {offset : ℕ} {packets : List (List ℕ)}
      → Chain b offset packets
      → (s : S) → walk process_pkt b (length packets) offset s ≡ deliver packets s
  unfolding walk
  walk-Chain {b} {offset} (chain_last h end) s =
      rw (process_hdr-Holds h s) (>>=-pointwise (deliver_one _ s) _ ok (λ t. ground arith))
  walk-Chain {b} {offset} (chain_link {packets = packets} h more chain) s =
      let next = walk-Chain chain in
      rw (process_hdr-Holds h s)
        (>>=-pointwise (deliver_one _ s) _ (deliver packets) (λ t. ground (arith, next t)))

  -- A block that is ready and holds a chain of packets, as many as its descriptor says: a call hands
  -- each packet that has bytes to the callback once and in order, with its length, then marks the
  -- block as the kernel's and makes the next one, around the end of the ring, the current one.
  pub process_block-Chain :
      (b : Block) (woken : Option Block) (packets : List (List ℕ)) (ring : PacketMmapRing) (s : S)
      → is_ready b ≡ true
      → b.num_pkts ≡ length packets
      → Chain b b.offset_to_first_pkt packets
      → process_block process_pkt b woken ring s ≡ (
          deliver packets s >>= λ t. ok (
            record {
              current_block = (ring.current_block + 1) % ring.block_nr;
              block_nr = ring.block_nr;
              released = ring.current_block ∷ ring.released;
            },
            t,
            b.num_pkts,
          ))
  unfolding process_block walked release
  process_block-Chain b woken packets ring s ready count chain =
      rw (ready_block_lem b woken ready, count, walk-Chain chain s) refl
