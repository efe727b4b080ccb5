-- ===== src/Tunnel/Manager/Single.antt =====
-- That an id is registered under one peer at most, over the calls of the manager of
-- crates/eoip-rs/src/tunnel/manager.rs, one after the other.
use eo_ip_rs.Base.{Result, Text, ℕ, ◌≡◌, sym, ap, ◌∙◌, ◌≢◌, inl, inr, some, []}
use eo_ip_rs.Proto.Types.{DemuxKey}
use eo_ip_rs.Proto.Types.Addr.{IpAddr}
use eo_ip_rs.Config.{TunnelConfig}
use eo_ip_rs.Ipsec.Config.{Vici}
use eo_ip_rs.Ipsec.Manager.{Answers}
use eo_ip_rs.Tunnel.Registry
use eo_ip_rs.Tunnel.Registry.{DashMap, TunnelRegistry}
use eo_ip_rs.Tunnel.Registry.Model.{find_by_tunnel_id_iff}
use eo_ip_rs.Tunnel.Manager.{Env, TunnelManager, register_startup_tunnel}
use eo_ip_rs.Tunnel.Manager.Create.{create_tunnel}
use eo_ip_rs.Tunnel.Manager.Create.Entries.{create_tunnel-get}
use eo_ip_rs.Tunnel.Manager.Destroy.{destroy_tunnel}
use eo_ip_rs.Tunnel.Manager.Destroy.Gone.{destroy_tunnel-get}
use mathlib.Core.List.Memᴰ

-- Two entries with one id are one entry.
unfoldable pub IsSingle : {V : Type 0} (d : DashMap DemuxKey V) → TunnelRegistry d → Type 0
IsSingle {V} d r =
    (k j : DemuxKey) (p q : V)
    → Registry.get d k r ≡ some p
    → Registry.get d j r ≡ some q
    → k.tunnel_id ≡ j.tunnel_id
    → k ≡ j

-- An entry that the search by its id misses is not there.
find-empty-get :
    {V : Type 0} (d : DashMap DemuxKey V) (id : ℕ) (r : TunnelRegistry d) (k : DemuxKey) (p : V)
    → Registry.find_by_tunnel_id d id r ≡ []
    → Registry.get d k r ≡ some p
    → k.tunnel_id ≢ id
find-empty-get d id r k p free found same =
    Memᴰ.not-nil (rw free at ((find_by_tunnel_id_iff d id k p r).1 (found, same)))

module _ (Sender : Type 0) (d : DashMap DemuxKey ℕ) (v : Vici) (show_ip : IpAddr → Text) where
  abbrev State : Type 0
  State = TunnelManager Sender d v show_ip

  create_tunnel-IsSingle :
      (env : Env Sender) (answers : Answers v show_ip) (config : TunnelConfig) (s s' : State)
      (r : Result (Unit {0}) Text)
      → create_tunnel Sender d v show_ip env answers config s ≡ some (s', r)
      → IsSingle d s.registry
      → IsSingle d s'.registry
  unfolding IsSingle
  create_tunnel-IsSingle env answers config s s' r e single k j p q at_k at_j same =
      let from = create_tunnel-get Sender d v show_ip env answers config s s' r in
      elim (from k p e at_k) [
        | inl old_k ↦ elim (from j q e at_j) [
          | inl old_j ↦ single k j p q old_k old_j same
          | inr (free, new_j) ↦ absurd (
              find-empty-get d config.tunnel_id s.registry k p free old_k
                (same ∙ ap (λ x. x.tunnel_id) new_j))
        ]
        | inr (free, new_k) ↦ elim (from j q e at_j) [
          | inl old_j ↦ absurd (
              find-empty-get d config.tunnel_id s.registry j q free old_j
                (sym same ∙ ap (λ x. x.tunnel_id) new_k))
          | inr (also, new_j) ↦ new_k ∙ sym new_j
        ]
      ]

  -- The states that calls of the manager lead to.
  pub data IsReached (base : State) : State → Type 0 where
    start : IsReached base base
    created :
        {s s' : State} {r : Result (Unit {0}) Text} (env : Env Sender) (answers : Answers v show_ip)
        (config : TunnelConfig)
        → create_tunnel Sender d v show_ip env answers config s ≡ some (s', r)
        → IsReached base s
        → IsReached base s'
    destroyed :
        {s : State} (answers : Answers v show_ip) (id : ℕ)
        → IsReached base s
        → IsReached base (destroy_tunnel Sender d v show_ip answers id s).0
    at_startup :
        {s : State} (id token : ℕ)
        → IsReached base s
        → IsReached base (register_startup_tunnel Sender d v show_ip id token s)

  -- If the ids are single at first, they are single after any sequence of calls of the manager, one
  -- after the other, whatever the calls return: creations, destructions, and storing the token of a
  -- tunnel that was started with the daemon, which makes no entry.
  pub reached-IsSingle :
      (base s : State) → IsReached base s → IsSingle d base.registry → IsSingle d s.registry
  unfolding IsSingle register_startup_tunnel
  reached-IsSingle base s start single = single
  reached-IsSingle base s (created {s = t} {r = r} env answers config e before) single =
      create_tunnel-IsSingle env answers config t s r e (reached-IsSingle base t before single)
  reached-IsSingle base s (destroyed {s = t} answers id before) single = λ k j p q at_k at_j.
      reached-IsSingle base t before single k j p q
        (destroy_tunnel-get Sender d v show_ip answers id t k p at_k).0
        (destroy_tunnel-get Sender d v show_ip answers id t j q at_j).0
  reached-IsSingle base s (at_startup {s = t} id token before) single =
      reached-IsSingle base t before single
