-- ===== src/Tunnel/Manager/Concurrent/Race.antt =====
-- One call of `create_tunnel` alone, and two at once for the same id.
use eo_ip_rs.Base.{
  Option-cases, Result, Text, ℕ, suc, ◌≡◌, refl, sym, ap, ◌∙◌, subst, ◌≢◌, inl, inr, some, [],
}
use eo_ip_rs.Proto.Types.Addr.{IpAddr}
use eo_ip_rs.Proto.Types.{DemuxKey}
use eo_ip_rs.Config.{TunnelConfig}
use eo_ip_rs.Ipsec.Config.{Vici}
use eo_ip_rs.Ipsec.Manager.{Answers}
use eo_ip_rs.Tunnel.Registry
use eo_ip_rs.Tunnel.Manager.{Env, TunnelManager, register}
use eo_ip_rs.Tunnel.Manager.Single.{IsSingle}
use eo_ip_rs.Tunnel.Manager.Helper.{request_tap}
use eo_ip_rs.Tunnel.Manager.Create.{create_tunnel}
use eo_ip_rs.Tunnel.Manager.Create.Registered.{key, mtu_of, create_tunnel_cases}
use eo_ip_rs.Tunnel.Manager.Concurrent.{
  arrived, registered, over, refuses, searches, inserts, asks, Interleaved, done, first, second,
}
use mathlib.Core.Option.{some-injective}
use eo_ip_rs.Tunnel.Registry.{DashMap, TunnelRegistry}

module _ (Sender : Type 0) (d : DashMap DemuxKey ℕ) (v : Vici) (show_ip : IpAddr → Text) where
  abbrev State : Type 0
  State = TunnelManager Sender d v show_ip

  -- What `create_tunnel` returns alone, a call's steps beside another that is over can end with.
  pub Interleaved-alone :
      (env : Env Sender) (answers : Answers v show_ip) (config : TunnelConfig) (s s' : State)
      (r q : Result (Unit {0}) Text)
      → create_tunnel Sender d v show_ip env answers config s ≡ some (s', r)
      → Interleaved Sender d v show_ip (arrived env answers config) (over q) s (over r) (over q) s'
  Interleaved-alone env answers config s s' r q e =
      let ends : State × Result (Unit {0}) Text → Type 0 = λ x.
        Interleaved Sender d v show_ip (arrived env answers config) (over q) s (over x.1) (over q)
          x.0 in
      elim (create_tunnel_cases Sender d v show_ip env answers config s) [
        | inl (taken, refused) ↦
            subst ends (some-injective _ _ (sym refused ∙ e)) (first (refuses taken) done)
        | inr (free, asked) ↦
            elim (Option-cases (
              request_tap Sender d v show_ip env config (mtu_of env config)
                (register Sender d v show_ip env config (mtu_of env config) s))) [
                  | inl waits ↦ absurd (cc (rw (asked, waits) at e))
                  | inr ((t, got), answered) ↦
                      subst ends (some-injective _ _ (rw (asked, answered) at e))
                        (first (searches free) (first inserts (first (asks answered) done)))
                ]
      ]

  both_registered :
      (env_a env_b : Env Sender) (a b : TunnelConfig) (s : State) (r : TunnelRegistry d)
      → a.remote ≢ b.remote
      → a.tunnel_id ≡ b.tunnel_id
      → r
        ≡ (register Sender d v show_ip env_b b
            (mtu_of env_b b)
            (register Sender d v show_ip env_a a (mtu_of env_a a) s)).registry
      → ¬ IsSingle d r
  unfolding IsSingle register Registry.insert Registry.get
  both_registered env_a env_b a b s r other same is single =
      let once = d.insert (key a) s.next s.registry in
      let apart : key b ≢ key a = λ e. other (sym (ap (λ k. k.peer_addr) e)) in
      let at_b = ap (d.get (key b)) is ∙ d.get-insert_self (key b) (suc s.next) once.0 in
      let at_a =
        ap (d.get (key a)) is
        ∙ (d.get-insert_ne (key b) (key a) (suc s.next) once.0 apart
            ∙ d.get-insert_self (key a) s.next s.registry) in
      apart (sym (single (key a) (key b) s.next (suc s.next) at_a at_b same))

  -- Of two calls for one id, which is free, and two peers, let both search before either makes its
  -- entry. Then neither is refused: before either asks for its device, both have made their entries,
  -- and the id is registered twice.
  pub create_tunnel-race :
      (env_a env_b : Env Sender) (answers_a answers_b : Answers v show_ip) (a b : TunnelConfig)
      (s : State)
      → a.tunnel_id ≡ b.tunnel_id
      → a.remote ≢ b.remote
      → Registry.find_by_tunnel_id d a.tunnel_id s.registry ≡ []
      → (end : State) × Interleaved Sender d v show_ip
          (arrived env_a answers_a a)
          (arrived env_b answers_b b)
          s
          (registered env_a answers_a a s.next)
          (registered env_b answers_b b (suc s.next))
          end
        × (¬ IsSingle d end.registry)
  unfolding register
  create_tunnel-race env_a env_b answers_a answers_b a b s same other free =
      let once = register Sender d v show_ip env_a a (mtu_of env_a a) s in
      let end = register Sender d v show_ip env_b b (mtu_of env_b b) once in
      (
        end,
        first (searches free)
            (second (searches (rw same at free)) (first inserts (second inserts done))),
        both_registered env_a env_b a b s end.registry other same refl,
      )
