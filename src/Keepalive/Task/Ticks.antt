-- ===== src/Keepalive/Task/Ticks.antt =====
-- Runs of a tunnel's keepalive task in which no packet comes.
use eo_ip_rs.Base.{
  ltb, if◌then◌else◌, length, panic, ℕ, suc, ◌+◌, ◌*◌, ◌≡◌, ◌≢◌, ◌⊎◌, Option, none, some, List, [],
  ◌∷◌, arith,
}
use eo_ip_rs.Proto.Types.Addr.{IpAddr, v4, v6, is_ipv6}
use eo_ip_rs.Proto.Gre.{encode_eoip_header}
use eo_ip_rs.Proto.Etherip.{encode_eoipv6_header}
use eo_ip_rs.Packet.Tx.{IoError, send_keepalive, keepalive_packet}
use eo_ip_rs.Tunnel.Lifecycle.{TunnelState, active, stale, new}
use eo_ip_rs.Keepalive.Task.{Happening, tick, Watched, answer_of}

pub send_keepalive-not_panic :
    (refused : Option IoError) (remote : IpAddr) (tid : ℕ)
    → send_keepalive (λ packet dest. answer_of refused) remote tid ≢ panic
unfolding send_keepalive keepalive_packet encode_eoip_header encode_eoipv6_header answer_of is_ipv6
send_keepalive-not_panic none (v4 a b c d) tid e = cc
send_keepalive-not_panic (some x) (v4 a b c d) tid e = cc
send_keepalive-not_panic none (v6 octets) tid e = ground arith
send_keepalive-not_panic (some x) (v6 octets) tid e = ground arith

-- Ticks with nothing between them.
abbrev pub quiet : List (ℕ × Option IoError) → List Happening
quiet [] = []
quiet ((now, refused) ∷ ticks) = tick now refused ∷ quiet ticks

module _ (remote : IpAddr) (tunnel_id timeout_secs : ℕ) where
  -- The state after a tick at a time: stale later than the timeout after the last packet, else active.
  abbrev pub due : (last_rx now : ℕ) → TunnelState
  due last_rx now = if ltb (last_rx + timeout_secs * 1000) now then stale else active

  -- Which of the two a tunnel is.
  abbrev pub IsWatched : ℕ → Type 0
  IsWatched cell = (cell ≡ new active) ⊎ (cell ≡ new stale)

  -- What a tick leaves.
  pub record IsTicked (now : ℕ) (s next : Watched) : Type 0 where
    pub moved : next.cell ≡ new (due s.last_rx now)
    pub tried : length next.sent ≡ suc (length s.sent)
    pub same : next.last_rx ≡ s.last_rx
