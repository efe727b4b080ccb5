-- ===== src/Keepalive.antt =====
-- crates/eoip-rs/src/keepalive.rs: one tick of a tunnel's keepalive task, after its packet is sent.
-- Times are milliseconds since the epoch; other threads may move the state between the load of it and
-- the exchange in `transition`, so the cell is an argument at both.
pub mod Watch
pub mod Task
use eo_ip_rs.Base.{ltb, leb, if◌then◌else◌, ℕ, ◌-◌, ◌*◌, Bool, true, false, ◌&&◌}
use eo_ip_rs.Tunnel.Lifecycle.{TunnelState, active, stale, load, transition}

is_active : TunnelState → Bool
is_active active = true
is_active _ = false

is_stale : TunnelState → Bool
is_stale stale = true
is_stale _ = false

-- `seen` is the cell at the load, `cell` at the exchange; the result is the cell that is left.
-- `now_ms - last_rx_ms` on ℕ is the source's difference cut at 0.
unfoldable pub check_stale : (last_rx_ms now_ms timeout_secs seen cell : ℕ) → ℕ
unfolding is_active is_stale
check_stale last_rx_ms now_ms timeout_secs seen cell =
    let elapsed = now_ms - last_rx_ms in
    let timeout = timeout_secs * 1000 in
    let current_state = load seen in
    if ltb 0 last_rx_ms
    then if ltb timeout elapsed && is_active current_state
      then (transition cell active stale).0
      else if leb elapsed timeout && is_stale current_state
      then (transition cell stale active).0
      else cell
    else cell
