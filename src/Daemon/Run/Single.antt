-- ===== src/Daemon/Run/Single.antt =====
-- That an id is registered under one peer at most, from the start of the daemon,
-- crates/eoip-rs/src/main.rs, over the calls of the manager, crates/eoip-rs/src/tunnel/manager.rs.
use eo_ip_rs.Base.{
  Option, none, subst, Text, ℕ, ◌≡◌, refl, sym, ap, ◌∙◌, ◌⊎◌, inl, inr, some, List, [], ◌∷◌,
}
use eo_ip_rs.Proto.Types.{DemuxKey, DemuxKey-discrete}
use eo_ip_rs.Proto.Types.Addr.{IpAddr}
use eo_ip_rs.Config.{TunnelConfig, Config}
use eo_ip_rs.Ipsec.Config.{Vici}
use eo_ip_rs.Ipsec.Manager.{Answers}
use eo_ip_rs.Tunnel.Registry
use eo_ip_rs.Tunnel.Registry.{DashMap}
use eo_ip_rs.Tunnel.Manager.{Env, TunnelManager}
use eo_ip_rs.Tunnel.Manager.Single.{IsSingle, IsReached, reached-IsSingle}
use eo_ip_rs.Daemon.Startup.{booted, on_boot, Startup, receive, start_one, start_tunnels}
use eo_ip_rs.Daemon.Startup.Steps.{
  OnBooted, on_boot-OnBooted, OnBooted-imp, SameTunnels, receive-SameTunnels,
  launch_all-SameTunnels, always,
}
use eo_ip_rs.Daemon.Startup.Enabled.{if-OnBooted}
use eo_ip_rs.Daemon.Startup.Active.{key_of, Started, start_one-Started}
use eo_ip_rs.Daemon.Run.{Daemon, ready_of, assembled, run}
use mathlib.Core.List.{Memᴰ}

-- Tunnels of one id are one tunnel.
abbrev pub HasUniqueIds : List TunnelConfig → Type 0
HasUniqueIds configs =
    (a b : TunnelConfig) → Memᴰ a configs → Memᴰ b configs → a.tunnel_id ≡ b.tunnel_id → a ≡ b

module _ (Sender : Type 0) (d : DashMap DemuxKey ℕ) (v : Vici) (show_ip : IpAddr → Text) where
  abbrev State : Type 0
  State = TunnelManager Sender d v show_ip

  abbrev Of : List TunnelConfig → DemuxKey → Type 0
  Of configs k = (config : TunnelConfig) × Memᴰ config configs × (key_of config ≡ k)

  -- A later state has the entries of an earlier one and those of the configurations.
  abbrev AddsOnly : List TunnelConfig → State → State → Type 0
  AddsOnly configs s t =
      (k : DemuxKey) (p : ℕ)
      → Registry.get d k t.registry ≡ some p
      → (Registry.get d k s.registry ≡ some p) ⊎ Of configs k

  later_Of :
      (config : TunnelConfig) (configs : List TunnelConfig) (k : DemuxKey)
      → Of configs k
      → Of (config ∷ configs) k
  later_Of config configs k (c, mem, is) = (c, Memᴰ.tail mem, is)

  Started-AddsOnly :
      (config : TunnelConfig) (configs : List TunnelConfig) (s t u : State)
      → Started Sender d v show_ip config s t
      → AddsOnly configs t u
      → AddsOnly (config ∷ configs) s u
  unfolding Registry.get Registry.insert
  Started-AddsOnly config configs s t u done later k p found = elim (later k p found) [
    | inr of_rest ↦ inr (later_Of config configs k of_rest)
    | inl before ↦ elim (DemuxKey-discrete (key_of config) k) [
      | yes same ↦ inr (config, Memᴰ.head refl, same)
      | no other ↦ inl (
          sym (d.get-insert_ne (key_of config) k s.next s.registry other)
          ∙ sym (ap (λ r. d.get k r) done.entered)
          ∙ before)
    ]
  ]

  start_tunnels-AddsOnly :
      (env : Env Sender) (cap : ℕ) (configs : List TunnelConfig) (st : Startup Sender d v show_ip)
      → OnBooted
          (λ su. AddsOnly configs st.manager su.manager)
          (start_tunnels Sender d v show_ip env cap configs st)
  unfolding start_tunnels
  start_tunnels-AddsOnly env cap [] st = λ k p found. inl found
  start_tunnels-AddsOnly env cap (config ∷ configs) st =
      let Goal : Startup Sender d v show_ip → Type 0 =
        λ su. AddsOnly (config ∷ configs) st.manager su.manager in
      if-OnBooted Goal config.enabled
        (on_boot (start_one Sender d v show_ip env cap config st)
          (start_tunnels Sender d v show_ip env cap configs))
        (start_tunnels Sender d v show_ip env cap configs st)
        (λ enabled.
          on_boot-OnBooted (λ su. Started Sender d v show_ip config st.manager su.manager) Goal
            (start_one Sender d v show_ip env cap config st) _
            (start_one-Started Sender d v show_ip env cap config st)
            (λ su done.
              OnBooted-imp (λ sv. AddsOnly configs su.manager sv.manager) Goal
                (λ sv. Started-AddsOnly config configs st.manager su.manager sv.manager done)
                (start_tunnels Sender d v show_ip env cap configs su)
                (start_tunnels-AddsOnly env cap configs su)))
        (λ disabled.
          OnBooted-imp (λ sv. AddsOnly configs st.manager sv.manager) Goal
            (λ sv later k p found. elim (later k p found) [
              | inl before ↦ inl before
              | inr of_rest ↦ inr (later_Of config configs k of_rest)
            ])
            (start_tunnels Sender d v show_ip env cap configs st)
            (start_tunnels-AddsOnly env cap configs st))

  run-AddsOnly :
      (env : Env Sender) (answers : Answers v show_ip) (af_packet : Option ℕ) (config : Config)
      (s : State)
      → OnBooted
          (λ daemon. AddsOnly config.tunnels s daemon.manager)
          (run Sender d v show_ip env answers af_packet config s)
  unfolding run assembled
  run-AddsOnly env answers af_packet config s =
      let Goal : Daemon Sender d v show_ip → Type 0 =
        λ daemon. AddsOnly config.tunnels s daemon.manager in
      on_boot-OnBooted (λ x. SameTunnels Sender d v show_ip s x.0) Goal
        (receive Sender d v show_ip s) _ (receive-SameTunnels Sender d v show_ip s)
        (λ (t, answer) same.
          let start : Startup Sender d v show_ip = record {
            manager = t;
            raw_v4_fd = none;
            raw_v6_fd = none;
            startup_tunnels = [];
          } in
          on_boot-OnBooted (λ done. Unit {0}) Goal (ready_of env.debug answer) _ (always _)
            (λ done nothing.
              on_boot-OnBooted (λ su. AddsOnly config.tunnels t su.manager) Goal
                (start_tunnels Sender d v show_ip env config.performance.channel_buffer
                  config.tunnels start)
                _
                (start_tunnels-AddsOnly env config.performance.channel_buffer config.tunnels start)
                (λ su added k p found.
                  let launched =
                    launch_all-SameTunnels Sender d v show_ip answers su.startup_tunnels
                      su.manager in
                  elim (added k p
                    (ap (λ r. Registry.get d k r) (sym launched.registry_same) ∙ found)) [
                      | inl before ↦
                          inl (ap (λ r. Registry.get d k r) (sym same.registry_same) ∙ before)
                      | inr of_config ↦ inr of_config
                    ])))

  Of-single :
      (configs : List TunnelConfig) (k j : DemuxKey)
      → HasUniqueIds configs
      → Of configs k
      → Of configs j
      → k.tunnel_id ≡ j.tunnel_id
      → k ≡ j
  Of-single configs k j unique (a, mem_a, is_k) (b, mem_b, is_j) same =
      let one : (a ≡ b) =
        unique a b mem_a mem_b
          (ap (λ x. x.tunnel_id) is_k ∙ same ∙ sym (ap (λ x. x.tunnel_id) is_j)) in
      sym is_k ∙ ap key_of one ∙ is_j

  -- If `run` on a new registry, with a configuration that names no id twice, comes as far as waiting
  -- for the end of the daemon, then an id is registered under one peer at most, and stays so over any
  -- sequence of calls of the manager, one after the other, whatever they return.
  pub run-IsSingle :
      (env : Env Sender) (answers : Answers v show_ip) (af_packet : Option ℕ) (config : Config)
      (s : State) (daemon : Daemon Sender d v show_ip) (later : State)
      → s.registry ≡ Registry.new d
      → HasUniqueIds config.tunnels
      → run Sender d v show_ip env answers af_packet config s ≡ booted daemon
      → IsReached Sender d v show_ip daemon.manager later
      → IsSingle d daemon.manager.registry × IsSingle d later.registry
  unfolding IsSingle Registry.new Registry.get
  run-IsSingle env answers af_packet config s daemon later fresh unique done reached =
      let added =
        subst (OnBooted (λ daemon. AddsOnly config.tunnels s daemon.manager)) done
          (run-AddsOnly env answers af_packet config s) in
      let of_config : (k : DemuxKey) (p : ℕ)
          → Registry.get d k daemon.manager.registry ≡ some p
          → Of config.tunnels k =
        λ k p found. elim (added k p found) [
          | inl before ↦ absurd (cc (ap (λ r. d.get k r) fresh ∙ d.get-empty k, before))
          | inr of_it ↦ of_it
        ] in
      let single : IsSingle d daemon.manager.registry = λ k j p q at_k at_j same.
        Of-single config.tunnels k j unique (of_config k p at_k) (of_config j q at_j) same in
      (single, reached-IsSingle Sender d v show_ip daemon.manager later reached single)
