-- ===== src/Tunnel/Lifecycle/Graph.antt =====
-- One call of `transition` against the diagram of the states.
use eo_ip_rs.Base.{Bool-cases, ok, err, ◌≡◌, refl, ◌≢◌, ◌⊎◌, inl, inr, true, false, arith}
use eo_ip_rs.Tunnel.Lifecycle.{
  TunnelState, initializing, configured, active, stale, tearing_down, destroyed,
  is_valid_transition, new, load, transition,
}

-- The diagram of the module's comment: forward along the life of a tunnel, back from stale to
-- active, and from every state before it to tearing down.
infix 40 ◌⟶◌
pub data ◌⟶◌ : TunnelState → TunnelState → Type 0 where
  allocate : initializing ⟶ configured
  activate : configured ⟶ active
  expire : active ⟶ stale
  recover : stale ⟶ active
  stop_active : active ⟶ tearing_down
  stop_stale : stale ⟶ tearing_down
  stop_configured : configured ⟶ tearing_down
  stop_initializing : initializing ⟶ tearing_down
  finish : tearing_down ⟶ destroyed

ruleset edges = (
  allocate, activate, expire, recover, stop_active, stop_stale, stop_configured, stop_initializing,
  finish,
)

pub load-new : (s : TunnelState) → load (new s) ≡ s
unfolding load new
load-new initializing = refl
load-new _ = refl

pub valid→⟶ : (s t : TunnelState) → is_valid_transition s t ≡ true → s ⟶ t
unfolding is_valid_transition
valid→⟶ s t h = grind (arith, edges)

pub ⟶→valid : {s t : TunnelState} → s ⟶ t → is_valid_transition s t ≡ true
unfolding is_valid_transition
⟶→valid allocate = refl
⟶→valid _ = refl

TunnelState-discrete : Discrete TunnelState
TunnelState-discrete = hlevel

transition_taken :
    (from to : TunnelState)
    → is_valid_transition from to ≡ true
    → transition (new from) from to ≡ (new to, ok tt)
unfolding transition new
transition_taken from to v = ground arith

transition_invalid :
    (s from to : TunnelState)
    → is_valid_transition from to ≡ false
    → transition (new s) from to ≡ (new s, err s)
unfolding transition
transition_invalid s from to v = rw v (rw load-new)

transition_elsewhere :
    (s from to : TunnelState) → from ≢ s → transition (new s) from to ≡ (new s, err s)
unfolding transition new
transition_elsewhere s from to other = ground arith

-- For a cell that holds the state `s`: if the arguments are an edge that starts in `s`, the transition
-- succeeds and the cell holds the edge's end; otherwise the cell stays as it is, and the error is `s`.
pub transition_exact :
    (s from to : TunnelState)
    → ((from ⟶ to) × (from ≡ s) × (transition (new s) from to ≡ (new to, ok tt)))
      ⊎ ((¬ (from ⟶ to) ⊎ (from ≢ s)) × (transition (new s) from to ≡ (new s, err s)))
transition_exact s from to = elim (Bool-cases (is_valid_transition from to)) [
  | inr v ↦ inr (inl (λ edge. cc (⟶→valid edge)), transition_invalid s from to v)
  | inl v ↦ elim (TunnelState-discrete from s) [
    | yes here ↦ inl (valid→⟶ from to v, here, rw (← here) (transition_taken from to v))
    | no other ↦ inr (inr other, transition_elsewhere s from to other)
  ]
]
