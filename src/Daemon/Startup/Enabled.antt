-- ===== src/Daemon/Startup/Enabled.antt =====
-- That every enabled tunnel is registered and active after a start, crates/eoip-rs/src/main.rs.
use eo_ip_rs.Base.{
  if◌then◌else◌, All, Text, ℕ, ◌<◌, ◌≡◌, refl, sym, ap, ◌∙◌, subst, ◌≢◌, Bool, true, false, some,
  List, [], ◌∷◌, arith,
}
use eo_ip_rs.Proto.Types.{DemuxKey, DemuxKey-discrete}
use eo_ip_rs.Proto.Types.Addr.{IpAddr}
use eo_ip_rs.Config.{TunnelConfig}
use eo_ip_rs.Ipsec.Config.{Vici}
use eo_ip_rs.Ipsec.Manager.{Answers}
use eo_ip_rs.Tunnel.Lifecycle.{active, load}
use eo_ip_rs.Tunnel.Registry
use eo_ip_rs.Tunnel.Registry.{DashMap}
use eo_ip_rs.Tunnel.Manager.{Env, TunnelManager}
use eo_ip_rs.Daemon.Startup.{Boot, on_boot, Startup, start_one, start_tunnels, launch_all}
use eo_ip_rs.Daemon.Startup.Steps.{
  OnBooted, on_boot-OnBooted, SameTunnels, launch_all-SameTunnels, OnBooted-imp,
}
use eo_ip_rs.Daemon.Startup.Active.{key_of, Started, start_one-Started}

pub if-OnBooted :
    {A : Type 0} (P : A → Type 0) (b : Bool) (x y : Boot A)
    → (b ≡ true → OnBooted P x)
    → (b ≡ false → OnBooted P y)
    → OnBooted P (if b then x else y)
if-OnBooted P true x y on off = on refl
if-OnBooted P false x y on off = off refl

module _ (Sender : Type 0) (d : DashMap DemuxKey ℕ) (v : Vici) (show_ip : IpAddr → Text) where
  abbrev State : Type 0
  State = TunnelManager Sender d v show_ip

  -- A tunnel is registered under the key.
  abbrev Has : DemuxKey → State → Type 0
  Has k s = (p : ℕ) × (Registry.get d k s.registry ≡ some p)

  -- Every handle of the registry was given out and is active.
  abbrev pub IsUp : State → Type 0
  IsUp s =
      (k : DemuxKey) (p : ℕ)
      → Registry.get d k s.registry ≡ some p
      → (p < s.next) × (load (s.handles p).state ≡ active)

  -- The tunnel of a configuration is registered, and its handle active.
  abbrev pub IsStarted : State → TunnelConfig → Type 0
  IsStarted s config =
      config.enabled ≡ true
      → (p : ℕ) × (Registry.get d (key_of config) s.registry ≡ some p)
        × (load (s.handles p).state ≡ active)

  Started-self :
      (config : TunnelConfig) (s t : State)
      → Started Sender d v show_ip config s t
      → Registry.get d (key_of config) t.registry ≡ some s.next
  unfolding Registry.get Registry.insert
  Started-self config s t done =
      ap (λ r. d.get (key_of config) r) done.entered
      ∙ d.get-insert_self (key_of config) s.next s.registry

  Started-ne :
      (config : TunnelConfig) (s t : State) (k : DemuxKey)
      → Started Sender d v show_ip config s t
      → key_of config ≢ k
      → Registry.get d k t.registry ≡ Registry.get d k s.registry
  unfolding Registry.get Registry.insert
  Started-ne config s t k done other =
      ap (λ r. d.get k r) done.entered ∙ d.get-insert_ne (key_of config) k s.next s.registry other

  Started-Has :
      (config : TunnelConfig) (s t : State) (k : DemuxKey)
      → Started Sender d v show_ip config s t
      → Has k s
      → Has k t
  Started-Has config s t k done (p, found) = elim (DemuxKey-discrete (key_of config) k) [
    | yes same ↦ (
      s.next,
      subst (λ j. Registry.get d j t.registry ≡ some s.next) same (Started-self config s t done),
    )
    | no other ↦ (p, Started-ne config s t k done other ∙ found)
  ]

  Started-IsUp :
      (config : TunnelConfig) (s t : State)
      → Started Sender d v show_ip config s t
      → IsUp s
      → IsUp t
  Started-IsUp config s t done up k p found = elim (DemuxKey-discrete (key_of config) k) [
    | yes same ↦
        let at : (s.next ≡ p) = cc (Started-self config s t done, same, found) in
        let counted = done.counted in
        (omega arith, subst (λ q. load (t.handles q).state ≡ active) at done.active_at)
    | no other ↦
        let (old, is_active) = up k p (sym (Started-ne config s t k done other) ∙ found) in
        let counted = done.counted in
        let apart : (s.next ≢ p) = (λ e. absurd (omega arith)) in
        (omega arith, ap (λ h. load h.state) (done.others p apart) ∙ is_active)
  ]

  -- What holds after the first loop over some configurations.
  record Looped (configs : List TunnelConfig) (s t : State) : Type 0 where
    up : IsUp t
    kept : (k : DemuxKey) → Has k s → Has k t
    all : All (λ c. c.enabled ≡ true → Has (key_of c) t) configs

  start_tunnels-Looped :
      (env : Env Sender) (cap : ℕ) (configs : List TunnelConfig) (st : Startup Sender d v show_ip)
      → IsUp st.manager
      → OnBooted
          (λ su. Looped configs st.manager su.manager)
          (start_tunnels Sender d v show_ip env cap configs st)
  unfolding start_tunnels
  start_tunnels-Looped env cap [] st up = record { up = up; kept = λ k has. has; all = tt }
  start_tunnels-Looped env cap (config ∷ configs) st up =
      let Goal : Startup Sender d v show_ip → Type 0 =
        λ su. Looped (config ∷ configs) st.manager su.manager in
      if-OnBooted Goal config.enabled
        (on_boot (start_one Sender d v show_ip env cap config st)
          (start_tunnels Sender d v show_ip env cap configs))
        (start_tunnels Sender d v show_ip env cap configs st)
        (λ enabled.
          on_boot-OnBooted (λ su. Started Sender d v show_ip config st.manager su.manager) Goal
            (start_one Sender d v show_ip env cap config st) _
            (start_one-Started Sender d v show_ip env cap config st)
            (λ su done.
              OnBooted-imp (λ sv. Looped configs su.manager sv.manager) Goal
                (λ sv looped. record {
                  up = looped.up;
                  kept =
                      λ k has. looped.kept k (Started-Has config st.manager su.manager k done has);
                  all = (
                    (λ e.
                        looped.kept (key_of config)
                          (st.manager.next, Started-self config st.manager su.manager done)),
                    looped.all,
                  );
                })
                (start_tunnels Sender d v show_ip env cap configs su)
                (start_tunnels-Looped env cap configs su
                  (Started-IsUp config st.manager su.manager done up))))
        (λ disabled.
          OnBooted-imp (λ sv. Looped configs st.manager sv.manager) Goal
            (λ sv looped. record {
              up = looped.up;
              kept = looped.kept;
              all = ((λ e. absurd (cc (disabled, e))), looped.all);
            })
            (start_tunnels Sender d v show_ip env cap configs st)
            (start_tunnels-Looped env cap configs st up))

  SameTunnels-IsUp : {s t : State} → SameTunnels Sender d v show_ip s t → IsUp s → IsUp t
  SameTunnels-IsUp same up k p found =
      let (small, is_active) =
        up k p (ap (λ r. Registry.get d k r) (sym same.registry_same) ∙ found) in
      (
        subst (λ n. p < n) (sym same.next_same) small,
        ap (λ h. load (h p).state) same.handles_same ∙ is_active,
      )

  SameTunnels-Has :
      {s t : State} (k : DemuxKey) → SameTunnels Sender d v show_ip s t → Has k s → Has k t
  SameTunnels-Has k same (p, found) = (p, ap (λ r. Registry.get d k r) same.registry_same ∙ found)

  launched-IsStarted :
      (configs : List TunnelConfig) (s t : State)
      → SameTunnels Sender d v show_ip s t
      → IsUp t
      → All (λ c. c.enabled ≡ true → Has (key_of c) s) configs
      → All (IsStarted t) configs
  launched-IsStarted [] s t same up all = tt
  launched-IsStarted (config ∷ configs) s t same up (first, all) = (
    (λ enabled.
        let (p, found) = SameTunnels-Has (key_of config) same (first enabled) in
        (p, found, (up (key_of config) p found).1)),
    launched-IsStarted configs s t same up all,
  )

  -- After both loops.
  pub launched :
      (env : Env Sender) (answers : Answers v show_ip) (cap : ℕ) (configs : List TunnelConfig)
      (st : Startup Sender d v show_ip)
      → IsUp st.manager
      → OnBooted
          (λ su.
            IsUp (launch_all Sender d v show_ip answers su.startup_tunnels su.manager)
            × All
                (IsStarted (launch_all Sender d v show_ip answers su.startup_tunnels su.manager))
                configs)
          (start_tunnels Sender d v show_ip env cap configs st)
  launched env answers cap configs st up =
      OnBooted-imp (λ su. Looped configs st.manager su.manager) _
        (λ su looped.
          let same =
            launch_all-SameTunnels Sender d v show_ip answers su.startup_tunnels su.manager in
          let up_then = SameTunnels-IsUp same looped.up in
          (up_then, launched-IsStarted configs _ _ same up_then looped.all))
        (start_tunnels Sender d v show_ip env cap configs st)
        (start_tunnels-Looped env cap configs st up)
