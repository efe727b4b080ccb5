-- ===== src/Tunnel/Lifecycle.antt =====
-- crates/eoip-rs/src/tunnel/lifecycle.rs. The `AtomicU8` is the number in it; an operation takes the
-- number it finds and returns the one it leaves.
pub mod Graph
pub mod Threads
use eo_ip_rs.Base.{◌==◌, if◌then◌else◌, Result, ok, err, ℕ, Bool, true, false, Option, none, some}

pub data TunnelState : Type 0 where
  initializing configured active stale tearing_down destroyed : TunnelState

-- `state as u8`
unfoldable pub to_u8 : TunnelState → ℕ
to_u8 initializing = 0
to_u8 configured = 1
to_u8 active = 2
to_u8 stale = 3
to_u8 tearing_down = 4
to_u8 destroyed = 5

unfoldable pub from_u8 : ℕ → Option TunnelState
from_u8 v =
    if v == 0
    then some initializing
    else if v == 1
    then some configured
    else if v == 2
    then some active
    else if v == 3
    then some stale
    else if v == 4
    then some tearing_down
    else if v == 5
    then some destroyed
    else none

unfoldable pub is_valid_transition : TunnelState → TunnelState → Bool
is_valid_transition initializing configured = true
is_valid_transition configured active = true
is_valid_transition active stale = true
is_valid_transition stale active = true
is_valid_transition active tearing_down = true
is_valid_transition stale tearing_down = true
is_valid_transition configured tearing_down = true
is_valid_transition initializing tearing_down = true
is_valid_transition tearing_down destroyed = true
is_valid_transition _ _ = false

-- `unwrap_or(TunnelState::Destroyed)`
or_destroyed : Option TunnelState → TunnelState
or_destroyed (some s) = s
or_destroyed none = destroyed

unfoldable pub new : TunnelState → ℕ
unfolding to_u8
new state = to_u8 state

unfoldable pub load : ℕ → TunnelState
unfolding or_destroyed from_u8
load cell = or_destroyed (from_u8 cell)

-- `compare_exchange`: the new value of the cell, and the old one if it was another than expected.
compare_exchange : ℕ → ℕ → ℕ → ℕ × Option ℕ
compare_exchange cell expected wanted =
    if cell == expected then (wanted, none) else (cell, some cell)

exchanged : ℕ × Option ℕ → ℕ × Result (Unit {0}) TunnelState
unfolding or_destroyed from_u8
exchanged (cell, none) = (cell, ok tt)
exchanged (cell, some actual) = (cell, err (or_destroyed (from_u8 actual)))

unfoldable pub transition : ℕ → TunnelState → TunnelState → ℕ × Result (Unit {0}) TunnelState
unfolding is_valid_transition load compare_exchange exchanged to_u8
transition cell from to =
    if is_valid_transition from to
    then exchanged (compare_exchange cell (to_u8 from) (to_u8 to))
    else (cell, err (load cell))
