-- ===== src/Tunnel/Lifecycle/Threads.antt =====
-- Any number of threads that call `transition` on one cell, in any order: each call is one step, as
-- the compare-and-exchange is atomic and the test before it reads no shared state.
use eo_ip_rs.Base.{ℕ, ◌≤◌, ◌≡◌, refl, sym, ap, ◌∙◌, subst, ◌⊎◌, inl, inr, arith}
use eo_ip_rs.Tunnel.Lifecycle.{
  TunnelState, initializing, configured, active, stale, tearing_down, destroyed, new, load,
  transition,
}
use eo_ip_rs.Tunnel.Lifecycle.Graph.{◌⟶◌, allocate, transition_exact, load-new}

pub data Step (c : ℕ) : ℕ → Type 0 where
  call : {d : ℕ} (from to : TunnelState) → (transition c from to).0 ≡ d → Step c d

pub data Reach (c : ℕ) : ℕ → Type 0 where
  here : Reach c c
  next : {d e : ℕ} → Reach c d → Step d e → Reach c e

infix 40 ◌⟶*◌
pub data ◌⟶*◌ (s : TunnelState) : TunnelState → Type 0 where
  stay : s ⟶* s
  go : {t u : TunnelState} → s ⟶* t → t ⟶ u → s ⟶* u

-- One step from a cell that holds `s`: nothing, or an edge.
Step-⟶ :
    (s : TunnelState) {d : ℕ}
    → Step (new s) d
    → (d ≡ new s) ⊎ ((t : TunnelState) × (s ⟶ t) × (d ≡ new t))
Step-⟶ s (call from to e) = elim (transition_exact s from to) [
  | inl (edge, at, done) ↦ inr (to, subst (λ x. x ⟶ to) at edge, sym e ∙ ap (λ r. r.0) done)
  | inr (why, refused) ↦ inl (sym e ∙ ap (λ r. r.0) refused)
]

-- Whatever threads call `transition`, with whatever arguments and in whatever order, the cell always
-- holds a state, and that state is reached from the first one along edges of the diagram.
pub Reach-⟶* :
    (s : TunnelState) {d : ℕ} → Reach (new s) d → (t : TunnelState) × (s ⟶* t) × (d ≡ new t)
Reach-⟶* s here = (s, stay, refl)
Reach-⟶* s {d} (next r st) =
    let (t, path, at) = Reach-⟶* s r in
    elim (Step-⟶ t (subst (λ c. Step c d) at st)) [
      | inl same ↦ (t, path, same)
      | inr (u, edge, there) ↦ (u, go path edge, there)
    ]

rank : TunnelState → ℕ
rank initializing = 0
rank configured = 1
rank active = 2
rank stale = 2
rank tearing_down = 3
rank destroyed = 4

rank-⟶ : {s t : TunnelState} → s ⟶ t → rank s ≤ rank t
unfolding rank
rank-⟶ allocate = omega arith
rank-⟶ _ = omega arith

rank-⟶* : {s t : TunnelState} → s ⟶* t → rank s ≤ rank t
rank-⟶* stay = omega arith
rank-⟶* (go path edge) = omega (arith, rank-⟶* path, rank-⟶ edge)

late :
    (s t : TunnelState)
    → (s ≡ tearing_down) ⊎ (s ≡ destroyed)
    → rank s ≤ rank t
    → ((s ≡ tearing_down) × (t ≡ tearing_down)) ⊎ (t ≡ destroyed)
unfolding rank
late s t over le = ground arith

-- Once a tunnel is tearing down or destroyed, no call of any thread brings it back: from then on the
-- cell reads as destroyed, or still as tearing down if that is where it started.
pub shutdown_final :
    (s : TunnelState) {d : ℕ}
    → (s ≡ tearing_down) ⊎ (s ≡ destroyed)
    → Reach (new s) d
    → ((s ≡ tearing_down) × (load d ≡ tearing_down)) ⊎ (load d ≡ destroyed)
shutdown_final s over r =
    let (t, path, at) = Reach-⟶* s r in
    let read = ap load at ∙ load-new t in rw read (late s t over (rank-⟶* path))
