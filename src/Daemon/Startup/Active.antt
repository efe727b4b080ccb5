-- ===== src/Daemon/Startup/Active.antt =====
-- What a start that succeeds leaves behind, crates/eoip-rs/src/main.rs.
use eo_ip_rs.Base.{Text, ℕ, suc, ◌≡◌, refl, ap, ◌∙◌, ◌≢◌}
use eo_ip_rs.Proto.Types.{DemuxKey}
use eo_ip_rs.Proto.Types.Addr.{IpAddr}
use eo_ip_rs.Config.{TunnelConfig}
use eo_ip_rs.Ipsec.Config.{Vici}
use eo_ip_rs.Tunnel.Handle.{put_self, put_other, with_channel_cap}
use eo_ip_rs.Tunnel.Lifecycle
use eo_ip_rs.Tunnel.Lifecycle.{active, load, transition, initializing, configured}
use eo_ip_rs.Tunnel.Registry
use eo_ip_rs.Tunnel.Registry.{DashMap}
use eo_ip_rs.Tunnel.Manager.{Env, TunnelManager}
use eo_ip_rs.Tunnel.Manager.Create.{activate}
use eo_ip_rs.Daemon.Startup.{
  unless, Startup, receive, tap_of, enroll, send_request, take_raw_sockets, activated, start_one,
}
use eo_ip_rs.Daemon.Startup.Steps.{
  OnBooted, on_boot-OnBooted, always, SameTunnels, same_trans, receive-SameTunnels,
  send_request-SameTunnels, take_raw_sockets-SameTunnels,
}

abbrev pub key_of : TunnelConfig → DemuxKey
key_of config = record { tunnel_id = config.tunnel_id; peer_addr = config.remote }

module _ (Sender : Type 0) (d : DashMap DemuxKey ℕ) (v : Vici) (show_ip : IpAddr → Text) where
  abbrev State : Type 0
  State = TunnelManager Sender d v show_ip

  -- What the start of one tunnel does to the registry and the handles.
  pub record Started (config : TunnelConfig) (s t : State) : Type 0 where
    pub entered : t.registry ≡ (Registry.insert d (key_of config) s.next s.registry).0
    pub counted : t.next ≡ suc s.next
    pub active_at : load (t.handles s.next).state ≡ active
    pub others : (q : ℕ) → s.next ≢ q → t.handles q ≡ s.handles q

  enrolled_state :
      (env : Env Sender) (cap : ℕ) (config : TunnelConfig) (s : State)
      → ((enroll Sender d v show_ip env cap config s).handles s.next).state
        ≡ Lifecycle.new initializing
  unfolding enroll with_channel_cap
  enrolled_state env cap config s = rw (put_self s.next _ s.handles) refl

  enrolled_others :
      (env : Env Sender) (cap : ℕ) (config : TunnelConfig) (s : State) (q : ℕ)
      → s.next ≢ q
      → (enroll Sender d v show_ip env cap config s).handles q ≡ s.handles q
  unfolding enroll
  enrolled_others env cap config s q other = put_other s.next q _ s.handles other

  activate_state :
      (p : ℕ) (s : State)
      → (s.handles p).state ≡ Lifecycle.new initializing
      → load ((activate Sender d v show_ip p s).handles p).state ≡ active
  unfolding activate load transition Lifecycle.new
  activate_state p s fresh = rw (put_self p _ s.handles, fresh) refl

  activate_others :
      (p q : ℕ) (s : State) → p ≢ q → (activate Sender d v show_ip p s).handles q ≡ s.handles q
  unfolding activate
  activate_others p q s other = put_other p q _ s.handles other

  activated-Started :
      (env : Env Sender) (cap fd : ℕ) (config : TunnelConfig) (s : State)
      (st : Startup Sender d v show_ip)
      → SameTunnels Sender d v show_ip (enroll Sender d v show_ip env cap config s) st.manager
      → Started config s (activated Sender d v show_ip config s.next fd st).manager
  unfolding activated activate enroll
  activated-Started env cap fd config s st same = record {
    entered = same.registry_same;
    counted = same.next_same;
    active_at =
        activate_state s.next st.manager
          (ap (λ h. (h s.next).state) same.handles_same ∙ enrolled_state env cap config s);
    others = λ q other.
        activate_others s.next q st.manager other
        ∙ ap (λ h. h q) same.handles_same
        ∙ enrolled_others env cap config s q other;
  }

  pub start_one-Started :
      (env : Env Sender) (cap : ℕ) (config : TunnelConfig) (st : Startup Sender d v show_ip)
      → OnBooted
          (λ su. Started config st.manager su.manager)
          (start_one Sender d v show_ip env cap config st)
  unfolding start_one
  start_one-Started env cap config st =
      let Goal : Startup Sender d v show_ip → Type 0 = λ su. Started config st.manager su.manager in
      let s0 = enroll Sender d v show_ip env cap config st.manager in
      on_boot-OnBooted (SameTunnels Sender d v show_ip s0) Goal
        (send_request Sender d v show_ip env config s0) _
        (send_request-SameTunnels Sender d v show_ip env config s0)
        (λ s1 same1.
          on_boot-OnBooted (λ x. SameTunnels Sender d v show_ip s1 x.0) Goal
            (receive Sender d v show_ip s1) _ (receive-SameTunnels Sender d v show_ip s1)
            (λ (s2, answer) same2.
              on_boot-OnBooted (λ fd. Unit {0}) Goal (tap_of env.debug answer) _ (always _)
                (λ fd nothing.
                  on_boot-OnBooted (λ done. Unit {0}) Goal (unless (env.open_tap fd) tt) _
                    (always _)
                    (λ done nothing.
                      on_boot-OnBooted (λ su. SameTunnels Sender d v show_ip s2 su.manager) Goal
                        (take_raw_sockets Sender d v show_ip (record st { manager = s2 })) _
                        (take_raw_sockets-SameTunnels Sender d v show_ip
                          (record st { manager = s2 }))
                        (λ su same3. activated-Started env cap fd config st.manager su (
                          same_trans Sender d v show_ip same1
                            (same_trans Sender d v show_ip same2 same3)))))))
