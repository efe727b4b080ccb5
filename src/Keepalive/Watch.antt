-- ===== src/Keepalive/Watch.antt =====
-- When a tick moves a tunnel between active and stale, and when it leaves it alone.
use eo_ip_rs.Base.{ℕ, ◌+◌, ◌*◌, ◌≤◌, ◌<◌, ◌≡◌, ◌⊎◌, inl, inr, arith}
use eo_ip_rs.Tunnel.Lifecycle.{TunnelState, active, stale, new, transition}
use eo_ip_rs.Keepalive.{check_stale}

-- What a tick may do to a cell that holds `s` at the exchange.
pub data Tick (last_rx_ms now_ms timeout_secs : ℕ) (seen s : TunnelState) : ℕ → Type 0 where
  keeps : {c : ℕ} → c ≡ new s → Tick last_rx_ms now_ms timeout_secs seen s c
  expires :
      {c : ℕ}
      → c ≡ new stale
      → seen ≡ active
      → s ≡ active
      → 0 < last_rx_ms
      → last_rx_ms + timeout_secs * 1000 < now_ms
      → Tick last_rx_ms now_ms timeout_secs seen s c
  recovers :
      {c : ℕ}
      → c ≡ new active
      → seen ≡ stale
      → s ≡ stale
      → 0 < last_rx_ms
      → now_ms ≤ last_rx_ms + timeout_secs * 1000
      → Tick last_rx_ms now_ms timeout_secs seen s c

late_or_not : (a b : ℕ) → (a < b) ⊎ (b ≤ a)
late_or_not a b = ground arith

module _ (last_rx_ms now_ms timeout_secs : ℕ) where
  pub tick_cases :
      (seen s : TunnelState)
      → (check_stale last_rx_ms now_ms timeout_secs (new seen) (new s) ≡ new s)
        ⊎ ((check_stale last_rx_ms now_ms timeout_secs (new seen) (new s) ≡ new stale)
            × (seen ≡ active)
            × (s ≡ active)
            × (0 < last_rx_ms)
            × (last_rx_ms + timeout_secs * 1000 < now_ms))
        ⊎ ((check_stale last_rx_ms now_ms timeout_secs (new seen) (new s) ≡ new active)
            × (seen ≡ stale)
            × (s ≡ stale)
            × (0 < last_rx_ms)
            × (now_ms ≤ last_rx_ms + timeout_secs * 1000))
  unfolding check_stale transition new
  tick_cases active active = ground arith
  tick_cases active stale = ground arith
  tick_cases stale stale = ground arith
  tick_cases stale active = ground arith
  tick_cases _ _ = ground arith

  -- Whatever the state was when the tick looked and whatever other threads have made of it since, the
  -- tick leaves it, or moves an active tunnel that was seen active to stale after more than the
  -- timeout without a packet, or a stale one that was seen stale to active within the timeout; it does
  -- neither before the first packet.
  pub check_stale-Tick :
      (seen s : TunnelState)
      → Tick last_rx_ms now_ms timeout_secs seen s
          (check_stale last_rx_ms now_ms timeout_secs (new seen) (new s))
  check_stale-Tick seen s = elim (tick_cases seen s) [
    | inl e ↦ keeps e
    | inr (inl (e, a, b, c, d)) ↦ expires e a b c d
    | inr (inr (e, a, b, c, d)) ↦ recovers e a b c d
  ]

  -- With no other thread in between and after a first packet: a tick after more than the timeout makes
  -- an active tunnel stale and leaves a stale one, and a tick within the timeout makes a stale tunnel
  -- active and leaves an active one.
  pub check_stale_moves :
      0 < last_rx_ms
      → ((last_rx_ms + timeout_secs * 1000 < now_ms)
          × (check_stale last_rx_ms now_ms timeout_secs (new active) (new active) ≡ new stale)
          × (check_stale last_rx_ms now_ms timeout_secs (new stale) (new stale) ≡ new stale))
        ⊎ ((now_ms ≤ last_rx_ms + timeout_secs * 1000)
            × (check_stale last_rx_ms now_ms timeout_secs (new active) (new active) ≡ new active)
            × (check_stale last_rx_ms now_ms timeout_secs (new stale) (new stale) ≡ new active))
  unfolding check_stale transition new
  check_stale_moves heard = elim (late_or_not (last_rx_ms + timeout_secs * 1000) now_ms) [
    | inl late ↦ inl (late, ground arith, ground arith)
    | inr recent ↦ inr (recent, ground arith, ground arith)
  ]
