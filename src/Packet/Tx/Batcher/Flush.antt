-- ===== src/Packet/Tx/Batcher/Flush.antt =====
-- What a flush sends: each family on its socket, in the order of the batch.
use eo_ip_rs.Base.{
  if◌then◌else◌, Bool-cases, length, ℕ, ◌≡◌, refl, inl, inr, some, List, [], ◌∷◌, ◌++◌, map,
  append_assoc, arith,
}
use eo_ip_rs.Packet.Tx.Batcher.{
  Outgoing, Message, RawSocket, raw_v4, raw_v6, is_dest_v6, indices_of, pick, send_indices,
  flush_batch,
}
use eo_ip_rs.Packet.Tx.Batcher.Messages.{
  message, send_batch_lem, get_elem?-append_length, length-snoc,
}

-- The packets of a batch for IPv4, and those for IPv6.
abbrev pub v4_packets : List Outgoing → List Outgoing
v4_packets [] = []
v4_packets (p ∷ ps) = let rest = v4_packets ps in if is_dest_v6 p.dest then rest else p ∷ rest

abbrev pub v6_packets : List Outgoing → List Outgoing
v6_packets [] = []
v6_packets (p ∷ ps) = let rest = v6_packets ps in if is_dest_v6 p.dest then p ∷ rest else rest

-- One call of `sendmmsg` for a family that has packets.
abbrev pub call_for : RawSocket → List Outgoing → List (RawSocket × List Message)
call_for sock [] = []
call_for sock (p ∷ ps) = (sock, map message (p ∷ ps)) ∷ []

-- The indices found from `length front` on pick the packets of each family from the whole batch.
record Picks (front ps : List Outgoing) : Type 0 where
  v4s : pick (front ++ ps) (indices_of ps (length front)).0 ≡ some (v4_packets ps)
  v6s : pick (front ++ ps) (indices_of ps (length front)).1 ≡ some (v6_packets ps)

pick_here :
    (front : List Outgoing) (p : Outgoing) (ps : List Outgoing) (is : List ℕ) (rest : List Outgoing)
    → pick (front ++ p ∷ ps) is ≡ some rest
    → pick (front ++ p ∷ ps) (length front ∷ is) ≡ some (p ∷ rest)
unfolding pick
pick_here front p ps is rest h = ground (arith, get_elem?-append_length front p ps)

picks : (ps front : List Outgoing) → Picks front ps
unfolding indices_of
picks [] front = record { v4s = unfold pick in refl; v6s = unfold pick in refl }
picks (p ∷ ps) front =
    let ih = picks ps (front ++ p ∷ []) in
    let regroup : (front ++ p ∷ []) ++ ps ≡ front ++ p ∷ ps = append_assoc front (p ∷ []) ps in
    let ih4 = rw (regroup, ← length-snoc front p) at ih.v4s in
    let ih6 = rw (regroup, ← length-snoc front p) at ih.v6s in
    elim (Bool-cases (is_dest_v6 p.dest)) [
      | inl six ↦ record { v4s = rw six ih4; v6s = rw six (pick_here front p ps _ _ ih6) }
      | inr four ↦ record { v4s = rw four (pick_here front p ps _ _ ih4); v6s = rw four ih6 }
    ]

send_indices_lem :
    (sock : RawSocket) (batch : List Outgoing) (is : List ℕ) (ps : List Outgoing)
    → pick batch is ≡ some ps
    → send_indices sock batch is ≡ some (call_for sock ps)
unfolding send_indices pick
send_indices_lem sock batch [] [] h = refl
send_indices_lem sock batch [] (p ∷ ps) h = cc
send_indices_lem sock batch (i ∷ is) [] h = ground arith
send_indices_lem sock batch (i ∷ is) (p ∷ ps) h = ground (arith, send_batch_lem (p ∷ ps))

-- A flush never indexes out of range. It makes at most one call of `sendmmsg` for each family, first
-- for IPv4 on its socket, with a message for each packet of the family in the order of the batch.
pub flush_batch_lem :
    (batch : List Outgoing)
    → flush_batch batch
      ≡ some (call_for raw_v4 (v4_packets batch) ++ call_for raw_v6 (v6_packets batch))
unfolding flush_batch
flush_batch_lem batch =
    let found = picks batch [] in
    let four = send_indices_lem raw_v4 batch _ _ found.v4s in
    let six = send_indices_lem raw_v6 batch _ _ found.v6s in rw (four, six) refl
