-- ===== src/Packet/Tx/Batcher/Messages.antt =====
-- The messages that `send_batch` builds.
use eo_ip_rs.Base.{
  length, get_elem?, length-append, ℕ, ◌+◌, ◌≡◌, refl, sym, ap, ◌∙◌, Bool, true, false, some, List,
  [], ◌∷◌, ◌++◌, map, append-nil, append_assoc, arith,
}
use eo_ip_rs.Packet.Tx.{SocketAddr, socket_v4, socket_v6}
use eo_ip_rs.Packet.Tx.Batcher.{
  send_batch, Outgoing, Message, to_v4, to_v6, TxBatchBuffers, push_packet, push_all, entry, cons?,
  messages, no_buffers, is_dest_v6,
}

-- The message that a packet calls for.
abbrev pub message_to : List ℕ → SocketAddr → Message
message_to bytes (socket_v4 o1 o2 o3 o4) = to_v4 bytes o1 o2 o3 o4
message_to bytes (socket_v6 octets) = to_v6 bytes octets

abbrev pub message : Outgoing → Message
message p = message_to p.bytes p.dest

-- The addresses of each family, and the flags, in order.
abbrev add_v4 : SocketAddr → List (ℕ × ℕ × ℕ × ℕ) → List (ℕ × ℕ × ℕ × ℕ)
add_v4 (socket_v4 o1 o2 o3 o4) rest = (o1, o2, o3, o4) ∷ rest
add_v4 (socket_v6 octets) rest = rest

abbrev add_v6 : SocketAddr → List (List ℕ) → List (List ℕ)
add_v6 (socket_v4 o1 o2 o3 o4) rest = rest
add_v6 (socket_v6 octets) rest = octets ∷ rest

abbrev v4_addrs : List Outgoing → List (ℕ × ℕ × ℕ × ℕ)
v4_addrs [] = []
v4_addrs (p ∷ ps) = add_v4 p.dest (v4_addrs ps)

abbrev v6_addrs : List Outgoing → List (List ℕ)
v6_addrs [] = []
v6_addrs (p ∷ ps) = add_v6 p.dest (v6_addrs ps)

abbrev payloads : List Outgoing → List (List ℕ)
payloads [] = []
payloads (p ∷ ps) = p.bytes ∷ payloads ps

abbrev flags : List Outgoing → List Bool
flags [] = []
flags (p ∷ ps) = is_dest_v6 p.dest ∷ flags ps

-- The buffers after the packets `ps` are added to `b`.
record Added (b : TxBatchBuffers) (ps : List Outgoing) (r : TxBatchBuffers) : Type 0 where
  iovecs : r.iovecs ≡ b.iovecs ++ payloads ps
  addrs_v4 : r.addrs_v4 ≡ b.addrs_v4 ++ v4_addrs ps
  addrs_v6 : r.addrs_v6 ≡ b.addrs_v6 ++ v6_addrs ps
  is_v6 : r.is_v6 ≡ b.is_v6 ++ flags ps

snoc_then {ℓ} :
    {A : Type ℓ} (r xs : List A) (y : A) (ys : List A) → r ≡ (xs ++ y ∷ []) ++ ys → r ≡ xs ++ y ∷ ys
snoc_then r xs y ys e = e ∙ append_assoc xs (y ∷ []) ys

push_packet-Added :
    (b : TxBatchBuffers) (bytes : List ℕ) (dest : SocketAddr) (ps : List Outgoing)
    (r : TxBatchBuffers)
    → Added (push_packet b bytes dest) ps r
    → Added b (record { bytes = bytes; dest = dest } ∷ ps) r
unfolding push_packet
push_packet-Added b bytes (socket_v4 o1 o2 o3 o4) ps r h = record {
  iovecs = snoc_then r.iovecs b.iovecs bytes (payloads ps) h.iovecs;
  addrs_v4 = snoc_then r.addrs_v4 b.addrs_v4 (o1, o2, o3, o4) (v4_addrs ps) h.addrs_v4;
  addrs_v6 = h.addrs_v6;
  is_v6 = snoc_then r.is_v6 b.is_v6 false (flags ps) h.is_v6;
}
push_packet-Added b bytes (socket_v6 octets) ps r h = record {
  iovecs = snoc_then r.iovecs b.iovecs bytes (payloads ps) h.iovecs;
  addrs_v4 = h.addrs_v4;
  addrs_v6 = snoc_then r.addrs_v6 b.addrs_v6 octets (v6_addrs ps) h.addrs_v6;
  is_v6 = snoc_then r.is_v6 b.is_v6 true (flags ps) h.is_v6;
}

push_all-Added : (ps : List Outgoing) (b : TxBatchBuffers) → Added b ps (push_all b ps)
unfolding push_all
push_all-Added [] b = record {
  iovecs = sym (append-nil _);
  addrs_v4 = sym (append-nil _);
  addrs_v6 = sym (append-nil _);
  is_v6 = sym (append-nil _);
}
push_all-Added (p ∷ ps) b =
    push_packet-Added b p.bytes p.dest ps _ (push_all-Added ps (push_packet b p.bytes p.dest))

pub get_elem?-append_length {ℓ} :
    {A : Type ℓ} (xs : List A) (y : A) (ys : List A) → get_elem? (xs ++ y ∷ ys) (length xs) ≡ some y
get_elem?-append_length [] y ys = refl
get_elem?-append_length (x ∷ xs) y ys = get_elem?-append_length xs y ys

pub length-snoc {ℓ} : {A : Type ℓ} (xs : List A) (y : A) → length xs + 1 ≡ length (xs ++ y ∷ [])
length-snoc xs y = omega (arith, length-append xs (y ∷ []))

then_snoc {ℓ} :
    {A : Type ℓ} (r xs : List A) (y : A) (ys : List A) → r ≡ xs ++ y ∷ ys → r ≡ (xs ++ y ∷ []) ++ ys
then_snoc r xs y ys e = e ∙ sym (append_assoc xs (y ∷ []) ys)

module _ (b : TxBatchBuffers) (bytes : List ℕ) (rest : List Bool) (ms : List Message) (i j k : ℕ)
    (here : get_elem? b.iovecs i ≡ some bytes) where
  messages_v4 :
      (o1 o2 o3 o4 : ℕ)
      → get_elem? b.addrs_v4 j ≡ some (o1, o2, o3, o4)
      → messages b rest (i + 1) (j + 1) k ≡ some ms
      → messages b (false ∷ rest) i j k ≡ some (to_v4 bytes o1 o2 o3 o4 ∷ ms)
  unfolding messages entry cons?
  messages_v4 o1 o2 o3 o4 there more = ground arith

  messages_v6 :
      (octets : List ℕ)
      → get_elem? b.addrs_v6 k ≡ some octets
      → messages b rest (i + 1) j (k + 1) ≡ some ms
      → messages b (true ∷ rest) i j k ≡ some (to_v6 bytes octets ∷ ms)
  unfolding messages entry cons?
  messages_v6 octets there more = ground arith

-- The second loop from the point where `is`, `fs` and `ss` entries are behind it finds the message of
-- each packet that is left.
abbrev LoopFinds : TxBatchBuffers → List Outgoing → Type 0
LoopFinds b ps =
    (is : List (List ℕ)) (fs : List (ℕ × ℕ × ℕ × ℕ)) (ss : List (List ℕ))
    → b.iovecs ≡ is ++ payloads ps
    → b.addrs_v4 ≡ fs ++ v4_addrs ps
    → b.addrs_v6 ≡ ss ++ v6_addrs ps
    → messages b (flags ps) (length is) (length fs) (length ss) ≡ some (map message ps)

loop_cons :
    (b : TxBatchBuffers) (bytes : List ℕ) (dest : SocketAddr) (ps : List Outgoing)
    → LoopFinds b ps
    → LoopFinds b (record { bytes = bytes; dest = dest } ∷ ps)
loop_cons b bytes (socket_v4 o1 o2 o3 o4) ps rest is fs ss hi hf hs =
    let o : ℕ × ℕ × ℕ × ℕ = (o1, o2, o3, o4) in
    let more =
      rest (is ++ bytes ∷ []) (fs ++ o ∷ []) ss (then_snoc b.iovecs is bytes (payloads ps) hi)
        (then_snoc b.addrs_v4 fs o (v4_addrs ps) hf) hs in
    let first =
      ap (λ l. get_elem? l (length is)) hi ∙ get_elem?-append_length is bytes (payloads ps) in
    let second =
      ap (λ l. get_elem? l (length fs)) hf ∙ get_elem?-append_length fs o (v4_addrs ps) in
    messages_v4 b bytes (flags ps) (map message ps) (length is) (length fs) (length ss) first o1 o2
      o3 o4 second (rw (length-snoc is bytes, length-snoc fs o) more)
loop_cons b bytes (socket_v6 octets) ps rest is fs ss hi hf hs =
    let more =
      rest (is ++ bytes ∷ []) fs (ss ++ octets ∷ []) (then_snoc b.iovecs is bytes (payloads ps) hi)
        hf (then_snoc b.addrs_v6 ss octets (v6_addrs ps) hs) in
    let first =
      ap (λ l. get_elem? l (length is)) hi ∙ get_elem?-append_length is bytes (payloads ps) in
    let second =
      ap (λ l. get_elem? l (length ss)) hs ∙ get_elem?-append_length ss octets (v6_addrs ps) in
    messages_v6 b bytes (flags ps) (map message ps) (length is) (length fs) (length ss) first octets
      second (rw (length-snoc is bytes, length-snoc ss octets) more)

messages_lem : (ps : List Outgoing) (b : TxBatchBuffers) → LoopFinds b ps
messages_lem [] b = λ is fs ss hi hf hs. unfold messages in refl
messages_lem (p ∷ ps) b = loop_cons b p.bytes p.dest ps (messages_lem ps b)

-- Whatever the mix of families in it, the two loops of `send_batch` never index out of range, and give
-- each packet, in order, one message with its own bytes and its own address.
pub send_batch_lem : (ps : List Outgoing) → send_batch ps ≡ some (map message ps)
unfolding send_batch
send_batch_lem ps =
    let a = push_all-Added ps no_buffers in
    rw a.is_v6 (messages_lem ps (push_all no_buffers ps) [] [] [] a.iovecs a.addrs_v4 a.addrs_v6)
