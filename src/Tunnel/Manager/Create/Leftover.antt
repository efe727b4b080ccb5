-- ===== src/Tunnel/Manager/Create/Leftover.antt =====
-- The entry that an error of `create_tunnel`, crates/eoip-rs/src/tunnel/manager.rs, leaves behind.
use eo_ip_rs.Base.{err, Text, codes, ℕ, ◌≡◌, refl, sym, ap, ◌∙◌, inl, inr, none, some, [], ◌++◌}
use mathlib.Core.Option
use eo_ip_rs.Proto.Types.{DemuxKey}
use eo_ip_rs.Proto.Types.Addr.{IpAddr}
use eo_ip_rs.Config.{TunnelConfig}
use eo_ip_rs.Ipsec.Config.{Vici}
use eo_ip_rs.Ipsec.Manager.{Answers}
use eo_ip_rs.Tunnel.Registry
use eo_ip_rs.Tunnel.Registry.{DashMap}
use eo_ip_rs.Tunnel.Registry.Model.{find_by_tunnel_id_iff}
use eo_ip_rs.Tunnel.Manager.{Env, TunnelManager, register}
use eo_ip_rs.Tunnel.Manager.Helper.{ask_helper, request_tap}
use eo_ip_rs.Tunnel.Manager.Helper.Tap.{request}
use eo_ip_rs.Tunnel.Manager.Create.{with_tap, create_tunnel, already_exists}
use eo_ip_rs.Tunnel.Manager.Create.Registered.{key, mtu_of, create_tunnel_cases}
use mathlib.Core.List.Memᴰ

module _ (Sender : Type 0) (d : DashMap DemuxKey ℕ) (v : Vici) (show_ip : IpAddr → Text) where
  abbrev State : Type 0
  State = TunnelManager Sender d v show_ip

  request_tap-unsent :
      (env : Env Sender) (config : TunnelConfig) (mtu : ℕ) (e : Text) (s : State)
      → env.lock ≡ none
      → env.serialize (request config mtu) ≡ none
      → env.send (request config mtu) ≡ some e
      → request_tap Sender d v show_ip env config mtu s
        ≡ some (s, err (codes "send CreateTunnel: " ++ e))
  unfolding request_tap ask_helper
  request_tap-unsent env config mtu e s free written failed = rw (free, written, failed) refl

  -- An entry of the id refuses the call, and nothing is changed or sent.
  create_tunnel-taken :
      (env : Env Sender) (answers : Answers v show_ip) (config : TunnelConfig) (k : DemuxKey)
      (p : ℕ) (s : State)
      → Registry.get d k s.registry ≡ some p
      → k.tunnel_id ≡ config.tunnel_id
      → create_tunnel Sender d v show_ip env answers config s
        ≡ some (s, err (already_exists config.tunnel_id))
  create_tunnel-taken env answers config k p s known same =
      elim (create_tunnel_cases Sender d v show_ip env answers config s) [
        | inl (taken, refused) ↦ refused
        | inr (free, asked) ↦ absurd (
            Memᴰ.not-nil (
              rw free at
                ((find_by_tunnel_id_iff d config.tunnel_id k p s.registry).1 (known, same))))
      ]

  -- Where the id is free and the helper's socket refuses the request, the call returns this error, and
  -- every later call of `create_tunnel` with the id, under whichever peer, is refused as a duplicate
  -- until the tunnel is destroyed.
  pub create_tunnel-unsent :
      (env later : Env Sender) (answers answers' : Answers v show_ip) (config other : TunnelConfig)
      (e : Text) (s : State)
      → Registry.find_by_tunnel_id d config.tunnel_id s.registry ≡ []
      → env.lock ≡ none
      → env.serialize (request config (mtu_of env config)) ≡ none
      → env.send (request config (mtu_of env config)) ≡ some e
      → other.tunnel_id ≡ config.tunnel_id
      → (s' : State) × (create_tunnel Sender d v show_ip env answers config s
          ≡ some (s', err (codes "send CreateTunnel: " ++ e)))
        × (create_tunnel Sender d v show_ip later answers' other s'
            ≡ some (s', err (already_exists other.tunnel_id)))
  unfolding register Registry.insert Registry.get with_tap
  create_tunnel-unsent env later answers answers' config other e s free unlocked written failed
        same =
      let g = register Sender d v show_ip env config (mtu_of env config) s in
      elim (create_tunnel_cases Sender d v show_ip env answers config s) [
        | inl (taken, refused) ↦ absurd (taken free)
        | inr (also, asked) ↦ (
          g,
          asked
              ∙ ap (Option.map (with_tap Sender d v show_ip answers config s.next))
                  (request_tap-unsent env config (mtu_of env config) e g unlocked written failed),
          create_tunnel-taken later answers' other (key config) s.next g
              (d.get-insert_self (key config) s.next s.registry) (sym same),
        )
      ]
