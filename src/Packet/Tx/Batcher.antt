-- ===== src/Packet/Tx/Batcher.antt =====
-- `spawn_tx_batcher`, `flush_batch` and `send_batch` of crates/eoip-rs/src/packet/tx.rs. A run is the
-- list of what its two `select!`s answer; a flush gives the calls of `sendmmsg`.
pub mod Messages
pub mod Flush
pub mod Runs
use eo_ip_rs.Base.{
  ltb, leb, if◌then◌else◌, length, get_elem?, ℕ, ◌+◌, Bool, true, false, ◌||◌, Option, none, some,
  List, [], ◌∷◌, ◌++◌,
}
use eo_ip_rs.Packet.Tx.{SocketAddr, socket_v4, socket_v6}

-- An outgoing packet by its bytes, as `as_slice` gives them, and its destination.
pub record Outgoing : Type 0 where
  pub bytes : List ℕ
  pub dest : SocketAddr

-- The entry of a message for `sendmmsg`: its buffer, and its address in one of the two forms.
pub data Message : Type 0 where
  to_v4 : List ℕ → (a b c d : ℕ) → Message
  to_v6 : List ℕ → List ℕ → Message

pub data RawSocket : Type 0 where
  raw_v4 raw_v6 : RawSocket

-- The reusable buffers of `send_batch` after its first loop.
pub record TxBatchBuffers : Type 0 where
  pub iovecs : List (List ℕ)
  pub addrs_v4 : List (ℕ × ℕ × ℕ × ℕ)
  pub addrs_v6 : List (List ℕ)
  pub is_v6 : List Bool

abbrev no_buffers : TxBatchBuffers
no_buffers = record { iovecs = []; addrs_v4 = []; addrs_v6 = []; is_v6 = [] }

-- One round of the first loop: `push` appends.
push_packet : TxBatchBuffers → List ℕ → SocketAddr → TxBatchBuffers
push_packet b bytes (socket_v4 o1 o2 o3 o4) = record b {
  iovecs = b.iovecs ++ bytes ∷ [];
  addrs_v4 = b.addrs_v4 ++ (o1, o2, o3, o4) ∷ [];
  is_v6 = b.is_v6 ++ false ∷ [];
}
push_packet b bytes (socket_v6 octets) = record b {
  iovecs = b.iovecs ++ bytes ∷ [];
  addrs_v6 = b.addrs_v6 ++ octets ∷ [];
  is_v6 = b.is_v6 ++ true ∷ [];
}

push_all : TxBatchBuffers → List Outgoing → TxBatchBuffers
push_all b [] = b
push_all b (p ∷ ps) = push_all (push_packet b p.bytes p.dest) ps

-- The second loop, `i` counting all entries and `v4_idx`, `v6_idx` those of each family; an index out
-- of range panics.
entry : TxBatchBuffers → Bool → (i v4_idx v6_idx : ℕ) → Option Message
entry b false i v4_idx v6_idx = elim (get_elem? b.iovecs i) [
  | none ↦ none
  | some bytes ↦ elim (get_elem? b.addrs_v4 v4_idx) [
    | none ↦ none
    | some (o1, o2, o3, o4) ↦ some (to_v4 bytes o1 o2 o3 o4)
  ]
]
entry b true i v4_idx v6_idx = elim (get_elem? b.iovecs i) [
  | none ↦ none
  | some bytes ↦ elim (get_elem? b.addrs_v6 v6_idx) [
    | none ↦ none
    | some octets ↦ some (to_v6 bytes octets)
  ]
]

cons? : Option Message → Option (List Message) → Option (List Message)
cons? (some m) (some ms) = some (m ∷ ms)
cons? _ _ = none

messages : TxBatchBuffers → List Bool → (i v4_idx v6_idx : ℕ) → Option (List Message)
messages b [] i v4_idx v6_idx = some []
messages b (false ∷ rest) i v4_idx v6_idx =
    cons? (entry b false i v4_idx v6_idx) (messages b rest (i + 1) (v4_idx + 1) v6_idx)
messages b (true ∷ rest) i v4_idx v6_idx =
    cons? (entry b true i v4_idx v6_idx) (messages b rest (i + 1) v4_idx (v6_idx + 1))

-- The messages that go to `sendmmsg`; `none` is a panic.
unfoldable pub send_batch : List Outgoing → Option (List Message)
unfolding push_packet push_all entry cons? messages
send_batch packets = let b = push_all no_buffers packets in messages b b.is_v6 0 0 0

-- The family of a destination.
abbrev pub is_dest_v6 : SocketAddr → Bool
is_dest_v6 (socket_v4 o1 o2 o3 o4) = false
is_dest_v6 (socket_v6 octets) = true

-- `v4_indices` and `v6_indices`: the loop over the batch, from index `i` on.
indices_of : List Outgoing → ℕ → List ℕ × List ℕ
indices_of [] i = ([], [])
indices_of (p ∷ ps) i =
    let (v4s, v6s) = indices_of ps (i + 1) in
    if is_dest_v6 p.dest then (v4s, i ∷ v6s) else (i ∷ v4s, v6s)

-- `batch[idx]` for each of the indices; an index out of range panics.
pick : List Outgoing → List ℕ → Option (List Outgoing)
pick batch [] = some []
pick batch (i ∷ is) = elim (get_elem? batch i) [
  | none ↦ none
  | some p ↦ elim (pick batch is) [ none ↦ none | some ps ↦ some (p ∷ ps) ]
]

-- One call of `sendmmsg`, if there is a packet to send.
send_indices : RawSocket → List Outgoing → List ℕ → Option (List (RawSocket × List Message))
send_indices sock batch [] = some []
send_indices sock batch (i ∷ is) = elim (pick batch (i ∷ is)) [
  | none ↦ none
  | some packets ↦ elim (send_batch packets) [ none ↦ none | some msgs ↦ some ((sock, msgs) ∷ []) ]
]

both :
    Option (List (RawSocket × List Message))
    → Option (List (RawSocket × List Message))
    → Option (List (RawSocket × List Message))
both (some a) (some b) = some (a ++ b)
both _ _ = none

-- The calls of `sendmmsg` for a batch, which is empty afterwards.
unfoldable pub flush_batch : List Outgoing → Option (List (RawSocket × List Message))
unfolding indices_of pick send_indices both send_batch
flush_batch batch =
    let (v4s, v6s) = indices_of batch 0 in
    both (send_indices raw_v4 batch v4s) (send_indices raw_v6 batch v6s)

-- What a `select!` of the task answers: shutdown, a packet, the closed channel, or the deadline.
pub data Event : Type 0 where
  cancelled : Event
  received : Outgoing → Event
  closed : Event
  elapsed : Event

-- The batches that are flushed, in order, from the outer loop (`filling` is false) or the inner one.
-- The outer `select!` has no deadline and the inner one does not look at the shutdown, so such an
-- answer cannot come there and is passed over. A run that is not stopped yet keeps its last batch.
run_from : (low high : ℕ) → Bool → List Outgoing → List Event → List (List Outgoing)
run_from low high filling batch [] = []
run_from low high false batch (cancelled ∷ es) = batch ∷ []
run_from low high false batch (closed ∷ es) = batch ∷ []
run_from low high false batch (elapsed ∷ es) = run_from low high false batch es
run_from low high false batch (received p ∷ es) =
    let grown = batch ++ p ∷ [] in
    let at_once = grown ∷ run_from low high false [] es in
    let wait = run_from low high true grown es in
    if ltb (length grown) low || leb high (length grown) then at_once else wait
run_from low high true batch (cancelled ∷ es) = run_from low high true batch es
run_from low high true batch (closed ∷ es) = batch ∷ run_from low high false [] es
run_from low high true batch (elapsed ∷ es) = batch ∷ run_from low high false [] es
run_from low high true batch (received p ∷ es) =
    let grown = batch ++ p ∷ [] in
    let full = grown ∷ run_from low high false [] es in
    let wait = run_from low high true grown es in if leb high (length grown) then full else wait

unfoldable pub run_batcher : (low high : ℕ) → List Event → List (List Outgoing)
unfolding run_from
run_batcher low high events = run_from low high false [] events
