-- ===== src/Tunnel/Manager/Create/Entries.antt =====
-- What every outcome of `create_tunnel`, crates/eoip-rs/src/tunnel/manager.rs, leaves in the registry.
use eo_ip_rs.Base.{
  Option-cases, Result, ok, err, panic, Text, ℕ, ◌≡◌, refl, sym, ap, ◌∙◌, ◌⊎◌, inl, inr, some, [],
}
use eo_ip_rs.Proto.Types.{DemuxKey, DemuxKey-discrete}
use eo_ip_rs.Proto.Types.Addr.{IpAddr}
use eo_ip_rs.Config.{TunnelConfig}
use eo_ip_rs.Ipsec.Config.{Vici}
use eo_ip_rs.Ipsec.Manager.{Answers}
use eo_ip_rs.Tunnel.Registry
use eo_ip_rs.Tunnel.Registry.{DashMap}
use eo_ip_rs.Tunnel.Manager.{Env, TunnelManager, register, remove_key}
use eo_ip_rs.Tunnel.Manager.Helper.{request_tap}
use eo_ip_rs.Tunnel.Manager.Helper.Tap.{request_tap_cases}
use eo_ip_rs.Tunnel.Manager.Create.{activate, spawn_tasks, with_tap, create_tunnel}
use eo_ip_rs.Tunnel.Manager.Create.Registered.{key, mtu_of, secure_keeps, create_tunnel_cases}
use eo_ip_rs.Tunnel.Manager.Destroy.Gone.{get_after-remove}

module _ (Sender : Type 0) (d : DashMap DemuxKey ℕ) (v : Vici) (show_ip : IpAddr → Text) where
  abbrev State : Type 0
  State = TunnelManager Sender d v show_ip

  pub with_tap-registry :
      (answers : Answers v show_ip) (config : TunnelConfig) (p : ℕ) (t : State) (r : Result ℕ Text)
      → (with_tap Sender d v show_ip answers config p (t, r)).0.registry ≡ t.registry
  unfolding with_tap spawn_tasks activate
  with_tap-registry answers config p t (ok fd) =
      ap (λ u. u.registry) (secure_keeps Sender d v show_ip answers config _)
  with_tap-registry answers config p t (err e) = refl
  with_tap-registry answers config p t panic = refl

  -- What a request leaves in the registry was there before.
  request_tap-get :
      (env : Env Sender) (config : TunnelConfig) (mtu : ℕ) (s t : State) (r : Result ℕ Text)
      (k : DemuxKey) (p : ℕ)
      → request_tap Sender d v show_ip env config mtu s ≡ some (t, r)
      → Registry.get d k t.registry ≡ some p
      → Registry.get d k s.registry ≡ some p
  unfolding remove_key
  request_tap-get env config mtu s t r k p e found =
      elim (request_tap_cases Sender d v show_ip env config mtu s t r e) [
        | inl (same, failed) ↦ rw same at found
        | inr (inbox, inl same) ↦ rw same at found
        | inr (inbox, inr (removed, failed)) ↦
            (get_after-remove d (key config) k p s.registry (rw removed at found)).1
      ]

  register-get :
      (env : Env Sender) (config : TunnelConfig) (mtu : ℕ) (s : State) (k : DemuxKey) (p : ℕ)
      → Registry.get d k (register Sender d v show_ip env config mtu s).registry ≡ some p
      → (Registry.get d k s.registry ≡ some p) ⊎ (k ≡ key config)
  unfolding register Registry.insert Registry.get
  register-get env config mtu s k p found = elim (DemuxKey-discrete (key config) k) [
    | yes same ↦ inr (sym same)
    | no other ↦ inl (sym (d.get-insert_ne (key config) k s.next s.registry other) ∙ found)
  ]

  -- Whatever a call of `create_tunnel` returns, an entry of the registry is an old one or, where the
  -- id was free, the one of the new key.
  pub create_tunnel-get :
      (env : Env Sender) (answers : Answers v show_ip) (config : TunnelConfig) (s s' : State)
      (r : Result (Unit {0}) Text) (k : DemuxKey) (p : ℕ)
      → create_tunnel Sender d v show_ip env answers config s ≡ some (s', r)
      → Registry.get d k s'.registry ≡ some p
      → (Registry.get d k s.registry ≡ some p)
        ⊎ ((Registry.find_by_tunnel_id d config.tunnel_id s.registry ≡ []) × (k ≡ key config))
  create_tunnel-get env answers config s s' r k p e found =
      let g = register Sender d v show_ip env config (mtu_of env config) s in
      elim (create_tunnel_cases Sender d v show_ip env answers config s) [
        | inl (taken, refused) ↦ let same : (s ≡ s') = cc (refused, e) in inl (rw same found)
        | inr (free, asked) ↦
            elim (Option-cases (request_tap Sender d v show_ip env config (mtu_of env config) g)) [
              | inl waits ↦ absurd (cc (rw (asked, waits) at e))
              | inr ((t, q), got) ↦
                  let ended : (with_tap Sender d v show_ip answers config s.next (t, q) ≡ (s', r)) =
                    cc (rw (asked, got) at e) in
                  let kept : (s'.registry ≡ t.registry) =
                    sym (ap (λ x. x.0.registry) ended)
                    ∙ with_tap-registry answers config s.next t q in
                  elim (register-get env config (mtu_of env config) s k p (
                    request_tap-get env config (mtu_of env config) g t q k p got
                      (rw kept at found))) [ inl before ↦ inl before | inr new ↦ inr (free, new) ]
            ]
      ]
