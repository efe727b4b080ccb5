-- ===== src/Tunnel/Manager/Create/Registered.antt =====
-- What `create_tunnel` of crates/eoip-rs/src/tunnel/manager.rs leaves when it succeeds.
use eo_ip_rs.Base.{
  List-cases, Option-cases, Result, ok, err, panic, Text, ℕ, ◌≡◌, refl, ◌≢◌, ◌⊎◌, inl, inr, some,
  List, [], ◌∷◌, ◌++◌,
}
use mathlib.Core.Option
use eo_ip_rs.Proto.Types.{DemuxKey}
use eo_ip_rs.Proto.Types.Addr.{IpAddr}
use eo_ip_rs.Config.{TunnelConfig}
use eo_ip_rs.Config.Mtu.{resolve_with_ipsec}
use eo_ip_rs.Ipsec.Config.{Vici}
use eo_ip_rs.Ipsec.Manager.{Answers}
use eo_ip_rs.Tunnel.Registry
use eo_ip_rs.Tunnel.Registry.{DashMap}
use eo_ip_rs.Tunnel.Manager.{Received, Env, TunnelManager, register}
use eo_ip_rs.Tunnel.Manager.Helper.{request_tap}
use eo_ip_rs.Tunnel.Manager.Helper.Tap.{request, request_tap_cases}
use eo_ip_rs.Tunnel.Manager.Create.{
  activate, spawn_tasks, secure, with_tap, has_secret, already_exists, create_tunnel,
}

abbrev pub key : TunnelConfig → DemuxKey
key config = record { tunnel_id = config.tunnel_id; peer_addr = config.remote }

-- The MTU that a call resolves.
unfoldable pub mtu_of : {Sender : Type 0} → Env Sender → TunnelConfig → ℕ
unfolding has_secret
mtu_of env config =
    resolve_with_ipsec env.lookup config.mtu config.remote (has_secret config.ipsec_secret)

module _ (Sender : Type 0) (d : DashMap DemuxKey ℕ) (v : Vici) (show_ip : IpAddr → Text) where
  abbrev State : Type 0
  State = TunnelManager Sender d v show_ip

  pub secure_keeps :
      (answers : Answers v show_ip) (config : TunnelConfig) (s : State)
      → secure Sender d v show_ip answers config s
        ≡ record s { ipsec = (secure Sender d v show_ip answers config s).ipsec }
  unfolding secure
  secure_keeps answers config s = elim (Option-cases config.ipsec_secret) [
    | inl plain ↦ rw plain refl
    | inr (secret, given) ↦ rw given refl
  ]

  -- The two ways of a call: the id is taken, or the handle is registered and a device asked for.
  pub create_tunnel_cases :
      (env : Env Sender) (answers : Answers v show_ip) (config : TunnelConfig) (s : State)
      → ((Registry.find_by_tunnel_id d config.tunnel_id s.registry ≢ [])
          × (create_tunnel Sender d v show_ip env answers config s
              ≡ some (s, err (already_exists config.tunnel_id))))
        ⊎ ((Registry.find_by_tunnel_id d config.tunnel_id s.registry ≡ [])
            × (create_tunnel Sender d v show_ip env answers config s
                ≡ Option.map (with_tap Sender d v show_ip answers config s.next) (
                    request_tap Sender d v show_ip env config
                      (mtu_of env config)
                      (register Sender d v show_ip env config (mtu_of env config) s))))
  unfolding create_tunnel mtu_of
  create_tunnel_cases env answers config s =
      elim (List-cases (Registry.find_by_tunnel_id d config.tunnel_id s.registry)) [
        | inl free ↦ inr (free, rw (free, create_tunnel) refl)
        | inr (entry, rest, taken) ↦ inl (λ free. cc, rw (taken, create_tunnel) refl)
      ]

  pub with_tap-ok :
      (answers : Answers v show_ip) (config : TunnelConfig) (p : ℕ) (x : State × Result ℕ Text)
      (s' : State)
      → with_tap Sender d v show_ip answers config p x ≡ (s', ok tt)
      → (t : State) × (fd : ℕ) × (x ≡ (t, ok fd))
        × (s'
            ≡ secure Sender d v show_ip answers config
                (spawn_tasks Sender d v show_ip config p fd (activate Sender d v show_ip p t)))
  unfolding with_tap
  with_tap-ok answers config p (t, ok fd) s' e = (t, fd, refl, cc)
  with_tap-ok answers config p (t, err text) s' e = cc
  with_tap-ok answers config p (t, panic) s' e = cc

  -- A call that succeeds: the state that got the device, then the new tunnel's tasks and IPsec.
  pub create_tunnel_state :
      (env : Env Sender) (answers : Answers v show_ip) (config : TunnelConfig) (s r s' : State)
      → r ≡ register Sender d v show_ip env config (mtu_of env config) s
      → create_tunnel Sender d v show_ip env answers config s ≡ some (s', ok tt)
      → (Registry.find_by_tunnel_id d config.tunnel_id s.registry ≡ [])
        × ((fd : ℕ) × (inbox : List Received) × (s'
              ≡ secure Sender d v show_ip answers config (
                  spawn_tasks Sender d v show_ip config s.next fd (
                    activate Sender d v show_ip s.next (record r {
                      inbox = inbox;
                      sent = r.sent ++ request config (mtu_of env config) ∷ [];
                    })))))
  create_tunnel_state env answers config s r s' is e =
      elim (create_tunnel_cases env answers config s) [
        | inl (taken, refused) ↦ absurd (cc (refused, e))
        | inr (free, asked) ↦
            elim (Option-cases (request_tap Sender d v show_ip env config (mtu_of env config) r)) [
              | inl waits ↦ absurd (cc (rw (asked, ← is, waits) at e))
              | inr (x, got) ↦
                  let (t, fd, is_tap, shape) =
                    with_tap-ok answers config s.next x s' (cc (rw (asked, ← is, got) at e)) in
                  elim (request_tap_cases Sender d v show_ip env config (mtu_of env config) r t
                    (ok fd) (rw is_tap at got)) [
                      | inl (same, failed) ↦ absurd (failed fd refl)
                      | inr (inbox, inr (removed, failed)) ↦ absurd (failed fd refl)
                      | inr (inbox, inl same) ↦ (free, (fd, inbox, rw (← same) shape))
                    ]
            ]
      ]
