-- ===== src/Daemon/Startup/Steps.antt =====
-- What the steps of a start leave alone, crates/eoip-rs/src/main.rs.
use eo_ip_rs.Base.{
  Option-cases, Text, ℕ, ◌≡◌, refl, ◌∙◌, inl, inr, Option, none, some, List, [], ◌∷◌,
}
use eo_ip_rs.Proto.Types.{DemuxKey}
use eo_ip_rs.Proto.Types.Addr.{IpAddr}
use eo_ip_rs.Config.{TunnelConfig}
use eo_ip_rs.Ipsec.Config.{Vici}
use eo_ip_rs.Ipsec.Manager.{Answers}
use eo_ip_rs.Tunnel.Registry
use eo_ip_rs.Tunnel.Registry.{DashMap}
use eo_ip_rs.Tunnel.Manager.{Received, Env, TunnelManager}
use eo_ip_rs.Tunnel.Manager.Create.{spawn_tasks, secure}
use eo_ip_rs.Daemon.Startup.{
  Boot, booted, failed, waits, on_boot, unless, Startup, first_of, receive, sockets_unless, v4_of,
  send_request, take_raw_sockets, launch_first, launch, launch_all,
}

-- What holds of the outcome where there is one.
abbrev pub OnBooted : {A : Type 0} → (A → Type 0) → Boot A → Type 0
OnBooted P (booted a) = P a
OnBooted P (failed e) = Unit
OnBooted P waits = Unit

pub on_boot-OnBooted :
    {A B : Type 0} (P : A → Type 0) (Q : B → Type 0) (r : Boot A) (k : A → Boot B)
    → OnBooted P r
    → ((a : A) → P a → OnBooted Q (k a))
    → OnBooted Q (on_boot r k)
on_boot-OnBooted P Q (booted a) k p next = next a p
on_boot-OnBooted P Q (failed e) k p next = tt
on_boot-OnBooted P Q waits k p next = tt

pub always : {A : Type 0} (r : Boot A) → OnBooted (λ a. Unit {0}) r
always (booted a) = tt
always (failed e) = tt
always waits = tt

unless-OnBooted :
    {A : Type 0} (P : A → Type 0) (o : Option Text) (a : A) → P a → OnBooted P (unless o a)
unless-OnBooted P none a p = p
unless-OnBooted P (some e) a p = tt

pub OnBooted-imp :
    {A : Type 0} (P Q : A → Type 0)
    → ((a : A) → P a → Q a)
    → (r : Boot A) → OnBooted P r
    → OnBooted Q r
OnBooted-imp P Q imp (booted a) p = imp a p
OnBooted-imp P Q imp (failed e) p = tt
OnBooted-imp P Q imp waits p = tt

module _ (Sender : Type 0) (d : DashMap DemuxKey ℕ) (v : Vici) (show_ip : IpAddr → Text) where
  abbrev State : Type 0
  State = TunnelManager Sender d v show_ip

  -- A step that leaves the tunnels alone.
  pub record SameTunnels (s t : State) : Type 0 where
    pub registry_same : t.registry ≡ s.registry
    pub handles_same : t.handles ≡ s.handles
    pub next_same : t.next ≡ s.next

  pub same_trans : {s t u : State} → SameTunnels s t → SameTunnels t u → SameTunnels s u
  same_trans a b = record {
    registry_same = b.registry_same ∙ a.registry_same;
    handles_same = b.handles_same ∙ a.handles_same;
    next_same = b.next_same ∙ a.next_same;
  }

  first_of-SameTunnels :
      (inbox : List Received) (s : State)
      → OnBooted (λ x. SameTunnels s x.0) (first_of Sender d v show_ip inbox s)
  unfolding first_of
  first_of-SameTunnels [] s = tt
  first_of-SameTunnels (answer ∷ inbox) s = record {
    registry_same = refl;
    handles_same = refl;
    next_same = refl;
  }

  pub receive-SameTunnels :
      (s : State) → OnBooted (λ x. SameTunnels s x.0) (receive Sender d v show_ip s)
  unfolding receive
  receive-SameTunnels s = first_of-SameTunnels s.inbox s

  pub send_request-SameTunnels :
      (env : Env Sender) (config : TunnelConfig) (s : State)
      → OnBooted (SameTunnels s) (send_request Sender d v show_ip env config s)
  unfolding send_request
  send_request-SameTunnels env config s =
      on_boot-OnBooted (λ done. Unit {0}) (SameTunnels s) (unless (env.serialize _) tt) _ (always _)
        (λ done nothing.
          unless-OnBooted (SameTunnels s) _ _
            (record { registry_same = refl; handles_same = refl; next_same = refl }))

  sockets_unless-SameTunnels :
      (fd : Option ℕ) (st : Startup Sender d v show_ip)
      → OnBooted (λ su. SameTunnels st.manager su.manager) (sockets_unless Sender d v show_ip fd st)
  unfolding sockets_unless
  sockets_unless-SameTunnels (some fd) st = record {
    registry_same = refl;
    handles_same = refl;
    next_same = refl;
  }
  sockets_unless-SameTunnels none st =
      on_boot-OnBooted (λ x. SameTunnels st.manager x.0) (λ su. SameTunnels st.manager su.manager)
        (receive Sender d v show_ip st.manager) _ (receive-SameTunnels st.manager)
        (λ (s, answer) first.
          on_boot-OnBooted (λ fd. Unit {0}) (λ su. SameTunnels st.manager su.manager) (v4_of answer)
            _ (always (v4_of answer))
            (λ fd nothing.
              on_boot-OnBooted (λ x. SameTunnels s x.0) (λ su. SameTunnels st.manager su.manager)
                (receive Sender d v show_ip s) _ (receive-SameTunnels s)
                (λ (t, answer) second. same_trans first second)))

  pub take_raw_sockets-SameTunnels :
      (st : Startup Sender d v show_ip)
      → OnBooted (λ su. SameTunnels st.manager su.manager) (take_raw_sockets Sender d v show_ip st)
  unfolding take_raw_sockets
  take_raw_sockets-SameTunnels st = sockets_unless-SameTunnels st.raw_v4_fd st

  pub same_refl : {s : State} → SameTunnels s s
  same_refl = record { registry_same = refl; handles_same = refl; next_same = refl }

  secure-SameTunnels :
      (answers : Answers v show_ip) (config : TunnelConfig) (s : State)
      → SameTunnels s (secure Sender d v show_ip answers config s)
  unfolding secure
  secure-SameTunnels answers config s = elim (Option-cases config.ipsec_secret) [
    | inl none_set ↦ rw none_set same_refl
    | inr (secret, set) ↦
        rw set (record { registry_same = refl; handles_same = refl; next_same = refl })
  ]

  launch_first-SameTunnels :
      (answers : Answers v show_ip) (fd : ℕ) (entries : List (DemuxKey × ℕ)) (s : State)
      → SameTunnels s (launch_first Sender d v show_ip answers fd entries s)
  unfolding launch_first spawn_tasks
  launch_first-SameTunnels answers fd [] s = record {
    registry_same = refl;
    handles_same = refl;
    next_same = refl;
  }
  launch_first-SameTunnels answers fd ((key, p) ∷ entries) s =
      same_trans (record { registry_same = refl; handles_same = refl; next_same = refl })
        (secure-SameTunnels answers (s.handles p).config
          (spawn_tasks Sender d v show_ip (s.handles p).config p fd s))

  pub launch_all-SameTunnels :
      (answers : Answers v show_ip) (tunnels : List (ℕ × ℕ)) (s : State)
      → SameTunnels s (launch_all Sender d v show_ip answers tunnels s)
  unfolding launch_all launch
  launch_all-SameTunnels answers [] s = same_refl
  launch_all-SameTunnels answers ((id, fd) ∷ tunnels) s =
      same_trans
        (launch_first-SameTunnels answers fd (Registry.find_by_tunnel_id d id s.registry) s)
        (launch_all-SameTunnels answers tunnels (launch Sender d v show_ip answers (id, fd) s))
