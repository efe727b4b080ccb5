-- ===== src/Packet/Rx/Clock.antt =====
-- The times that a worker stamps on the packets it receives, and what the keepalive task makes of them.
use eo_ip_rs.Base.{
  length, replicate, ℕ, suc, ◌+◌, ◌%◌, ◌≤◌, ◌<◌, ◌≡◌, refl, ap, List, [], ◌∷◌, arith,
}
use eo_ip_rs.Packet.Rx.{CachedTime, coarse_timestamp_ms}

-- The stamps of packets that come at the times given.
abbrev pub stamps : CachedTime → List ℕ → List ℕ
stamps c [] = []
stamps c (now ∷ later) = let (next, stamp) = coarse_timestamp_ms now c in stamp ∷ stamps next later

coarse_cached :
    (c : CachedTime) (now : ℕ)
    → 0 < c.count % 64
    → c.count + 1 < 18446744073709551616
    → coarse_timestamp_ms now c ≡ (record { count = c.count + 1; ts = c.ts }, c.ts)
unfolding coarse_timestamp_ms
coarse_cached c now some_calls no_wrap = ground arith

coarse_read :
    (c : CachedTime) (now : ℕ)
    → c.count % 64 ≡ 0
    → c.count + 1 < 18446744073709551616
    → coarse_timestamp_ms now c ≡ (record { count = c.count + 1; ts = now }, now)
unfolding coarse_timestamp_ms
coarse_read c now start no_wrap = ground arith

stamps_cached :
    (later : List ℕ) (count ts : ℕ)
    → 0 < count % 64
    → count % 64 + length later ≤ 64
    → count + length later < 18446744073709551616
    → stamps (record { count = count; ts = ts }) later ≡ replicate (length later) ts
stamps_cached [] count ts some_calls few no_wrap = refl
stamps_cached (now ∷ []) count ts some_calls few no_wrap =
    rw (coarse_cached (record { count = count; ts = ts }) now some_calls (omega arith)) refl
stamps_cached (now ∷ next ∷ later) count ts some_calls few no_wrap =
    rw (coarse_cached (record { count = count; ts = ts }) now some_calls (omega arith)) (
      ap (λ t. ts ∷ t)
        (stamps_cached (next ∷ later) (count + 1) ts (omega arith) (omega arith) (omega arith)))

-- A worker whose count of packets is a multiple of 64, as it is at the start, reads the clock for the
-- next packet and gives each of the up to 63 packets after it the same stamp, whenever they come.
pub stamps_first_64 :
    (c : CachedTime) (now : ℕ) (later : List ℕ)
    → c.count % 64 ≡ 0
    → c.count + 64 < 18446744073709551616
    → length later ≤ 63
    → stamps c (now ∷ later) ≡ replicate (suc (length later)) now
stamps_first_64 c now later start no_wrap few = rw (coarse_read c now start (omega arith)) (
    ap (λ t. now ∷ t)
      (stamps_cached later (c.count + 1) now (omega arith) (omega arith) (omega arith)))
