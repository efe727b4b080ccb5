-- ===== src/Daemon/Run/Started.antt =====
-- The tunnels of a daemon that has started, crates/eoip-rs/src/main.rs.
use eo_ip_rs.Base.{
  All, Text, ℕ, ◌≡◌, sym, ap, ◌∙◌, subst, inl, inr, true, Option, none, some, List, [], ◌∷◌,
}
use eo_ip_rs.Proto.Types.{DemuxKey}
use eo_ip_rs.Proto.Types.Addr.{IpAddr}
use eo_ip_rs.Config.{TunnelConfig, Config}
use eo_ip_rs.Ipsec.Config.{Vici}
use eo_ip_rs.Ipsec.Manager.{Answers}
use eo_ip_rs.Tunnel.Registry
use eo_ip_rs.Tunnel.Registry.{DashMap}
use eo_ip_rs.Tunnel.Manager.{Env, TunnelManager}
use eo_ip_rs.Daemon.Startup.{booted, Startup, receive, start_tunnels, launch_all}
use eo_ip_rs.Daemon.Startup.Steps.{
  OnBooted, on_boot-OnBooted, SameTunnels, receive-SameTunnels, always,
}
use eo_ip_rs.Daemon.Startup.Enabled.{IsUp, IsStarted, launched}
use eo_ip_rs.Daemon.Run.{Daemon, ready_of, assembled, run}
use mathlib.Core.List.{Memᴰ}
use mathlib.Core.List.Memᴰ
use eo_ip_rs.Tunnel.Lifecycle.{active, load}
use eo_ip_rs.Daemon.Startup.Active.{key_of}

module _ (Sender : Type 0) (d : DashMap DemuxKey ℕ) (v : Vici) (show_ip : IpAddr → Text) where
  abbrev State : Type 0
  State = TunnelManager Sender d v show_ip

  -- The registry holds active tunnels only, and each enabled one of the configurations.
  abbrev IsServing : List TunnelConfig → State → Type 0
  IsServing configs s = IsUp Sender d v show_ip s × All (IsStarted Sender d v show_ip s) configs

  new-IsUp : (s : State) → s.registry ≡ Registry.new d → IsUp Sender d v show_ip s
  unfolding Registry.new Registry.get
  new-IsUp s fresh k p found = absurd (cc (ap (λ r. d.get k r) fresh ∙ d.get-empty k, found))

  run-OnBooted :
      (env : Env Sender) (answers : Answers v show_ip) (af_packet : Option ℕ) (config : Config)
      (s : State)
      → s.registry ≡ Registry.new d
      → OnBooted
          (λ daemon. IsServing config.tunnels daemon.manager)
          (run Sender d v show_ip env answers af_packet config s)
  unfolding run assembled
  run-OnBooted env answers af_packet config s fresh =
      let Goal : Daemon Sender d v show_ip → Type 0 =
        λ daemon. IsServing config.tunnels daemon.manager in
      on_boot-OnBooted (λ x. SameTunnels Sender d v show_ip s x.0) Goal
        (receive Sender d v show_ip s) _ (receive-SameTunnels Sender d v show_ip s)
        (λ (t, answer) same.
          let start : Startup Sender d v show_ip = record {
            manager = t;
            raw_v4_fd = none;
            raw_v6_fd = none;
            startup_tunnels = [];
          } in
          on_boot-OnBooted (λ done. Unit {0}) Goal (ready_of env.debug answer) _ (always _)
            (λ done nothing.
              on_boot-OnBooted
                (λ su.
                  IsServing config.tunnels
                    (launch_all Sender d v show_ip answers su.startup_tunnels su.manager))
                Goal
                (start_tunnels Sender d v show_ip env config.performance.channel_buffer
                  config.tunnels start)
                _
                (launched Sender d v show_ip env answers config.performance.channel_buffer
                  config.tunnels start (new-IsUp t (same.registry_same ∙ fresh)))
                (λ su serving. serving)))

  -- A tunnel is registered, and its handle active.
  abbrev pub IsServed : TunnelConfig → State → Type 0
  IsServed tunnel s =
      (p : ℕ) × (Registry.get d (key_of tunnel) s.registry ≡ some p)
      × (load (s.handles p).state ≡ active)

  IsStarted-mem :
      (tunnel : TunnelConfig) (configs : List TunnelConfig) (s : State)
      → All (IsStarted Sender d v show_ip s) configs
      → Memᴰ tunnel configs
      → tunnel.enabled ≡ true
      → IsServed tunnel s
  IsStarted-mem tunnel [] s all mem enabled = absurd (Memᴰ.not-nil mem)
  IsStarted-mem tunnel (config ∷ configs) s (first, all) mem enabled = elim (Memᴰ.cases_cons mem) [
    | inl e ↦ subst (λ c. IsServed c s) (sym e) (first (ap (λ c. c.enabled) (sym e) ∙ enabled))
    | inr later ↦ IsStarted-mem tunnel configs s all later enabled
  ]

  -- If `run` on a new registry comes as far as waiting for the end of the daemon, then every enabled
  -- tunnel of the configuration is registered under its id and remote address with a handle that is
  -- active.
  pub run-IsServed :
      (env : Env Sender) (answers : Answers v show_ip) (af_packet : Option ℕ) (config : Config)
      (s : State) (daemon : Daemon Sender d v show_ip) (tunnel : TunnelConfig)
      → s.registry ≡ Registry.new d
      → run Sender d v show_ip env answers af_packet config s ≡ booted daemon
      → Memᴰ tunnel config.tunnels
      → tunnel.enabled ≡ true
      → IsServed tunnel daemon.manager
  run-IsServed env answers af_packet config s daemon tunnel fresh done mem enabled =
      IsStarted-mem tunnel config.tunnels daemon.manager
        (subst (OnBooted (λ daemon. IsServing config.tunnels daemon.manager)) done
          (run-OnBooted env answers af_packet config s fresh)).1
        mem enabled
