-- ===== src/Packet/Tx/Batcher/Runs.antt =====
-- Whole runs of the batcher.
use eo_ip_rs.Base.{
  ltb, leb, lt→ltb, Bool-cases, length, All, length-append, ℕ, ◌-◌, ◌≤◌, max, ◌≡◌, sym, ap, ◌∙◌,
  ◌⊎◌, inl, inr, Bool, true, false, ◌||◌, List, [], ◌∷◌, ◌++◌, append-nil, append_assoc, arith,
}
use eo_ip_rs.Packet.Tx.Batcher.{
  Outgoing, Event, cancelled, received, closed, elapsed, run_from, run_batcher,
}

-- The packets that a run receives.
abbrev pub packets : List Event → List Outgoing
packets [] = []
packets (received p ∷ es) = p ∷ packets es
packets (_ ∷ es) = packets es

abbrev pub concat : List (List Outgoing) → List Outgoing
concat [] = []
concat (b ∷ bs) = b ++ concat bs

-- Events before the end of a run.
abbrev pub IsQuiet : List Event → Type 0
IsQuiet [] = Unit
IsQuiet (cancelled ∷ es) = ⊥
IsQuiet (closed ∷ es) = ⊥
IsQuiet (_ ∷ es) = IsQuiet es

-- The ends of a run: the channel is closed, or the last deadline is over and shutdown is seen.
abbrev pub IsEnding : List Event → Type 0
IsEnding es = (es ≡ closed ∷ closed ∷ []) ⊎ (es ≡ elapsed ∷ cancelled ∷ [])

concat-end :
    (low high : ℕ) (filling : Bool) (batch : List Outgoing) (end : List Event)
    → IsEnding end
    → concat (run_from low high filling batch end) ≡ batch
unfolding run_from
concat-end low high false batch end (inl e) = rw e (append-nil batch)
concat-end low high true batch end (inl e) = rw e (append-nil batch)
concat-end low high false batch end (inr e) = rw e (append-nil batch)
concat-end low high true batch end (inr e) = rw e (append-nil batch)

concat-run_from :
    (low high : ℕ) (filling : Bool) (es : List Event) (batch : List Outgoing) (end : List Event)
    → IsQuiet es
    → IsEnding end
    → concat (run_from low high filling batch (es ++ end)) ≡ batch ++ packets es
unfolding run_from
concat-run_from low high filling [] batch end quiet ending =
    concat-end low high filling batch end ending ∙ sym (append-nil batch)
concat-run_from low high filling (cancelled ∷ es) batch end quiet ending = absurd quiet
concat-run_from low high filling (closed ∷ es) batch end quiet ending = absurd quiet
concat-run_from low high false (elapsed ∷ es) batch end quiet ending =
    concat-run_from low high false es batch end quiet ending
concat-run_from low high true (elapsed ∷ es) batch end quiet ending =
    ap (λ t. batch ++ t) (concat-run_from low high false es [] end quiet ending)
concat-run_from low high false (received p ∷ es) batch end quiet ending =
    let grown = batch ++ p ∷ [] in
    let flushed = ap (λ t. grown ++ t) (concat-run_from low high false es [] end quiet ending) in
    let kept = concat-run_from low high true es grown end quiet ending in
    let regroup = append_assoc batch (p ∷ []) (packets es) in
    elim (Bool-cases (ltb (length grown) low || leb high (length grown))) [
      | inl now ↦ rw now (flushed ∙ regroup)
      | inr later ↦ rw later (kept ∙ regroup)
    ]
concat-run_from low high true (received p ∷ es) batch end quiet ending =
    let grown = batch ++ p ∷ [] in
    let flushed = ap (λ t. grown ++ t) (concat-run_from low high false es [] end quiet ending) in
    let kept = concat-run_from low high true es grown end quiet ending in
    let regroup = append_assoc batch (p ∷ []) (packets es) in
    elim (Bool-cases (leb high (length grown))) [
      | inl now ↦ rw now (flushed ∙ regroup)
      | inr later ↦ rw later (kept ∙ regroup)
    ]

-- Every packet received before the end of a run is in exactly one flushed batch, and the batches
-- together are the packets in the order in which they came, whatever the two marks are.
pub concat-run_batcher :
    (low high : ℕ) (es end : List Event)
    → IsQuiet es
    → IsEnding end
    → concat (run_batcher low high (es ++ end)) ≡ packets es
unfolding run_batcher
concat-run_batcher low high es end quiet ending =
    concat-run_from low high false es [] end quiet ending

bounded :
    (low high : ℕ) (filling : Bool) (es : List Event) (batch : List Outgoing)
    → length batch ≤ high - 1
    → All (λ b. length b ≤ max 1 high) (run_from low high filling batch es)
unfolding run_from
bounded low high filling [] batch small = tt
bounded low high false (cancelled ∷ es) batch small = (omega arith, tt)
bounded low high false (closed ∷ es) batch small = (omega arith, tt)
bounded low high false (elapsed ∷ es) batch small = bounded low high false es batch small
bounded low high true (cancelled ∷ es) batch small = bounded low high true es batch small
bounded low high true (closed ∷ es) batch small =
    (omega arith, bounded low high false es [] (omega arith))
bounded low high true (elapsed ∷ es) batch small =
    (omega arith, bounded low high false es [] (omega arith))
bounded low high false (received p ∷ es) batch small =
    let grown = batch ++ p ∷ [] in
    let size = length-append batch (p ∷ []) in
    let again = bounded low high false es [] (omega arith) in
    elim (Bool-cases (ltb (length grown) low || leb high (length grown))) [
      | inl now ↦ rw now (omega arith, again)
      | inr later ↦ rw later (bounded low high true es grown (ground arith))
    ]
bounded low high true (received p ∷ es) batch small =
    let grown = batch ++ p ∷ [] in
    let size = length-append batch (p ∷ []) in
    let again = bounded low high false es [] (omega arith) in
    elim (Bool-cases (leb high (length grown))) [
      | inl now ↦ rw now (omega arith, again)
      | inr later ↦ rw later (bounded low high true es grown (ground arith))
    ]

-- No batch holds more packets than the high mark, and none more than one if that mark is 0.
pub run_batcher_bounded :
    (low high : ℕ) (es : List Event) → All (λ b. length b ≤ max 1 high) (run_batcher low high es)
unfolding run_batcher
run_batcher_bounded low high es = bounded low high false es [] (omega arith)

single :
    (low high : ℕ) (es : List Event)
    → 2 ≤ low
    → All (λ b. length b ≤ 1) (run_from low high false [] es)
unfolding run_from
single low high [] two = tt
single low high (cancelled ∷ es) two = omega arith
single low high (closed ∷ es) two = omega arith
single low high (elapsed ∷ es) two = single low high es two
single low high (received p ∷ es) two = rw (lt→ltb 1 low two) (omega arith, single low high es two)

-- With a low mark of 2 or more, as the default is, no run ever flushes more than one packet at once:
-- the batch holds one packet when its length is compared with the mark.
pub run_batcher_single :
    (low high : ℕ) (es : List Event) → 2 ≤ low → All (λ b. length b ≤ 1) (run_batcher low high es)
unfolding run_batcher
run_batcher_single low high es two = single low high es two
