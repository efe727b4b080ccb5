-- ===== src/Tests/States.antt =====
-- The states of a tunnel, its keepalive ticks and the clock of a worker.
use eo_ip_rs.Base.{◌≡◌, refl}
use eo_ip_rs.Tunnel.Lifecycle.{TunnelState, configured, active, tearing_down, new, transition}
use eo_ip_rs.Tunnel.Lifecycle.Threads.{Step, Reach, ◌⟶*◌, Reach-⟶*}
use eo_ip_rs.Packet.Rx.{CachedTime}

-- Two calls: one that is an edge, and one that is too late.
edge_call : Step (new configured) (new active)
unfolding transition new
edge_call = Step.call configured active refl

too_late : Step (new active) (new active)
unfolding transition new
too_late = Step.call configured tearing_down refl

two_calls : Reach (new configured) (new active)
two_calls = Reach.next (Reach.next Reach.here edge_call) too_late

Reach-⟶*_example : (t : TunnelState) × (configured ⟶* t) × (new active ≡ new t)
Reach-⟶*_example = Reach-⟶* configured two_calls

refused_call : Step (new tearing_down) (new tearing_down)
unfolding transition new
refused_call = Step.call configured active refl

abbrev first_time : CachedTime
first_time = record { count = 0; ts = 0 }
