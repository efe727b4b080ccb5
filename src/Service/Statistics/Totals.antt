-- ===== src/Service/Statistics/Totals.antt =====
-- What the global statistics are sums of.
use eo_ip_rs.Base.{
  if◌then◌else◌, ℕ, ◌+◌, ◌%◌, ◌≡◌, refl, ◌∙◌, Bool, true, false, List, [], ◌∷◌, arith,
}
use eo_ip_rs.Proto.Types.{DemuxKey}
use eo_ip_rs.Tunnel.Handle.{TunnelHandle, Store}
use eo_ip_rs.Tunnel.Lifecycle.{TunnelState, load}
use eo_ip_rs.Tunnel.Registry.{DashMap}
use eo_ip_rs.Service.Statistics.{
  GlobalStats, add_u32, is_active, is_stale, one_if, counted, counted_all, get_global_stats,
}
use native.Mathlib.Nat.{add_assoc, add-zero, zero-add}

one_if_lem : (b : Bool) → one_if b ≡ (if b then 1 else 0)
unfolding one_if
one_if_lem true = refl
one_if_lem false = refl

-- The totals with each number reduced to its width.
abbrev pub totals : (a b t r x y : ℕ) → GlobalStats
totals a b t r x y = record {
  active_tunnels = a % 4294967296;
  stale_tunnels = b % 4294967296;
  total_tx_packets = t % 18446744073709551616;
  total_rx_packets = r % 18446744073709551616;
  total_tx_bytes = x % 18446744073709551616;
  total_rx_bytes = y % 18446744073709551616;
}

mod_u32 : (a b : ℕ) → (a % 4294967296 + b) % 4294967296 ≡ (a + b) % 4294967296
mod_u32 a b = omega arith

mod_u64 :
    (a b : ℕ)
    → (a % 18446744073709551616 + b) % 18446744073709551616 ≡ (a + b) % 18446744073709551616
mod_u64 a b = omega arith

module _ {Sender : Type 0} where
  -- The sum of a number over the handles of the entries.
  abbrev pub sum_of : (TunnelHandle Sender → ℕ) → List (DemuxKey × ℕ) → Store Sender → ℕ
  sum_of f [] handles = 0
  sum_of f ((key, p) ∷ entries) handles = f (handles p) + sum_of f entries handles

  -- How many of them are in a state.
  abbrev pub number_of : (TunnelState → Bool) → List (DemuxKey × ℕ) → Store Sender → ℕ
  number_of test entries handles =
      sum_of (λ h. if test (load h.state) then 1 else 0) entries handles

module _ {Sender : Type 0} (d : DashMap DemuxKey ℕ) where
  counted-totals :
      (h : TunnelHandle Sender) (a b t r x y : ℕ)
      → counted d h (totals a b t r x y)
        ≡ totals
            (a + one_if (is_active (load h.state)))
            (b + one_if (is_stale (load h.state)))
            (t + h.stats.tx_packets)
            (r + h.stats.rx_packets)
            (x + h.stats.tx_bytes)
            (y + h.stats.rx_bytes)
  unfolding counted add_u32
  counted-totals h a b t r x y =
      rw
        (
          mod_u32 a (one_if (is_active (load h.state))),
          mod_u32 b (one_if (is_stale (load h.state))),
          mod_u64 t h.stats.tx_packets,
          mod_u64 r h.stats.rx_packets,
          mod_u64 x h.stats.tx_bytes,
          mod_u64 y h.stats.rx_bytes,
        )
        refl

  counted_all-totals :
      (entries : List (DemuxKey × ℕ)) (handles : Store Sender) (a b t r x y : ℕ)
      → counted_all d entries handles (totals a b t r x y)
        ≡ totals
            (a + number_of is_active entries handles)
            (b + number_of is_stale entries handles)
            (t + sum_of (λ h. h.stats.tx_packets) entries handles)
            (r + sum_of (λ h. h.stats.rx_packets) entries handles)
            (x + sum_of (λ h. h.stats.tx_bytes) entries handles)
            (y + sum_of (λ h. h.stats.rx_bytes) entries handles)
  unfolding counted_all
  counted_all-totals [] handles a b t r x y = simp add-zero refl
  counted_all-totals ((key, p) ∷ entries) handles a b t r x y =
      rw
        (
          counted-totals (handles p) a b t r x y,
          counted_all-totals entries handles (a + one_if (is_active (load (handles p).state)))
              (b + one_if (is_stale (load (handles p).state))) (t + (handles p).stats.tx_packets)
              (r + (handles p).stats.rx_packets) (x + (handles p).stats.tx_bytes)
              (y + (handles p).stats.rx_bytes),
          one_if_lem (is_active (load (handles p).state)),
          one_if_lem (is_stale (load (handles p).state)),
        )
        (simp add_assoc refl)

  -- The global statistics count the registered tunnels that are active and those that are stale, each
  -- as a 32-bit number, and sum up the packets and bytes of all registered tunnels as 64-bit numbers.
  pub get_global_stats_lem :
      (registry : d.Map) (handles : Store Sender)
      → get_global_stats d registry handles
        ≡ totals
            (number_of is_active (d.entries registry) handles)
            (number_of is_stale (d.entries registry) handles)
            (sum_of (λ h. h.stats.tx_packets) (d.entries registry) handles)
            (sum_of (λ h. h.stats.rx_packets) (d.entries registry) handles)
            (sum_of (λ h. h.stats.tx_bytes) (d.entries registry) handles)
            (sum_of (λ h. h.stats.rx_bytes) (d.entries registry) handles)
  unfolding get_global_stats
  get_global_stats_lem registry handles =
      counted_all-totals (d.entries registry) handles 0 0 0 0 0 0 ∙ simp zero-add refl
