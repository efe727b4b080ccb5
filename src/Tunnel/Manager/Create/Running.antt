-- ===== src/Tunnel/Manager/Create/Running.antt =====
-- The tunnel that `create_tunnel` of crates/eoip-rs/src/tunnel/manager.rs has made.
use eo_ip_rs.Base.{
  ok, Text, map_get, ℕ, ◌≡◌, refl, sym, ap, ◌∙◌, subst, ◌≢◌, some, List, [], ◌∷◌, ◌++◌, arith, suc,
  if◌then◌else◌,
}
use eo_ip_rs.Proto.Types.{DemuxKey}
use eo_ip_rs.Proto.Types.Addr.{IpAddr, is_ipv6}
use eo_ip_rs.Config.{TunnelConfig}
use eo_ip_rs.Config.Mtu.{is_auto}
use eo_ip_rs.Ipsec.Config.{Vici}
use eo_ip_rs.Ipsec.Manager.{IpsecManager, Answers}
use eo_ip_rs.Tunnel.Handle.{TunnelHandle, put_self, with_channel_cap}
use eo_ip_rs.Tunnel.Lifecycle.{active, load}
use eo_ip_rs.Tunnel.Registry
use eo_ip_rs.Tunnel.Registry.{DashMap}
use eo_ip_rs.Tunnel.Manager.{
  Task, tap_reader, tap_writer, keepalive, pmtud, Received, Env, TunnelManager, register,
}
use eo_ip_rs.Tunnel.Manager.Helper.Tap.{request}
use eo_ip_rs.Tunnel.Manager.Create.Registered.{key, mtu_of, secure_keeps, create_tunnel_state}
use eo_ip_rs.Tunnel.Manager.Create.{began, tap_writers, activate, spawn_tasks, create_tunnel}

module _ (Sender : Type 0) (d : DashMap DemuxKey ℕ) (v : Vici) (show_ip : IpAddr → Text) where
  abbrev State : Type 0
  State = TunnelManager Sender d v show_ip

  -- The tasks of a tunnel on a device, in the order of their start: probing is for an MTU that is
  -- left to the daemon.
  abbrev tasks_of : TunnelConfig → (p fd token : ℕ) → List Task
  tasks_of config p fd token =
      tap_reader p fd token
      ∷ tap_writer p fd
      ∷ keepalive p (is_ipv6 config.remote) token
      ∷ (if is_auto config.mtu then pmtud p config.remote token ∷ [] else [])

  -- The new tunnel is registered under its key, beside the entries there were; its handle is active
  -- and holds the configuration and the MTU; one request was sent; exactly its tasks were started, on
  -- one device and with the next token, which is kept under its id; no token was cancelled.
  pub record IsRunning (env : Env Sender) (config : TunnelConfig) (s s' : State) : Type 0 where
    pub found : Registry.get d (key config) s'.registry ≡ some s.next
    pub others :
        (k : DemuxKey) → key config ≢ k → Registry.get d k s'.registry ≡ Registry.get d k s.registry
    pub is_active : load (s'.handles s.next).state ≡ active
    pub same_config : (s'.handles s.next).config ≡ config
    pub has_mtu : (s'.handles s.next).actual_mtu ≡ mtu_of env config
    pub one_request : s'.sent ≡ s.sent ++ request config (mtu_of env config) ∷ []
    pub has_tasks : (fd : ℕ) × (s'.spawned ≡ s.spawned ++ tasks_of config s.next fd s.next_token)
    pub has_token : map_get config.tunnel_id s'.tasks ≡ some s.next_token
    pub new_next : s'.next_token ≡ suc s.next_token
    pub cancels_nothing : s'.cancelled ≡ s.cancelled

  activate_lem :
      (p : ℕ) (s : State)
      → (s.handles p).state ≡ 0
      → (activate Sender d v show_ip p s).handles p ≡ record (s.handles p) { state = 2 }
  unfolding activate began
  activate_lem p s fresh =
      put_self p _ s.handles ∙ ap {A = ℕ} (λ c. record (s.handles p) { state = began c }) fresh

  register_handle :
      (env : Env Sender) (config : TunnelConfig) (mtu : ℕ) (s : State)
      → (register Sender d v show_ip env config mtu s).handles s.next
        ≡ record (with_channel_cap config (env.new_channel 1024 s.next)) { actual_mtu = mtu }
  unfolding register
  register_handle env config mtu s = put_self s.next _ s.handles

  abbrev started : Env Sender → TunnelConfig → State → List Received → State
  started env config s inbox =
      let r = register Sender d v show_ip env config (mtu_of env config) s in
      activate Sender d v show_ip s.next
        (record r { inbox = inbox; sent = r.sent ++ request config (mtu_of env config) ∷ [] })

  started_handle :
      (env : Env Sender) (config : TunnelConfig) (s : State) (inbox : List Received)
      → (started env config s inbox).handles s.next
        ≡ record (with_channel_cap config (env.new_channel 1024 s.next)) {
          actual_mtu = mtu_of env config;
          state = 2;
        }
  unfolding with_channel_cap
  started_handle env config s inbox =
      let h = register_handle env config (mtu_of env config) s in
      activate_lem s.next _ (ap (λ h. h.state) h)
      ∙ ap {A = TunnelHandle Sender} (λ h. record h { state = 2 }) h

  running :
      (env : Env Sender) (config : TunnelConfig) (s : State) (inbox : List Received) (fd : ℕ)
      (x : IpsecManager v show_ip)
      → IsRunning env config s
          (record (spawn_tasks Sender d v show_ip config s.next fd (started env config s inbox)) {
            ipsec = x;
          })
  unfolding spawn_tasks tap_writers activate register Registry.insert Registry.get with_channel_cap
  running env config s inbox fd x =
      let h = started_handle env config s inbox in
      record {
        found = d.get-insert_self (key config) s.next s.registry;
        others = λ k ne. d.get-insert_ne (key config) k s.next s.registry ne;
        is_active = ap (λ h. load h.state) h;
        same_config = ap (λ h. h.config) h;
        has_mtu = ap (λ h. h.actual_mtu) h;
        one_request = refl;
        has_tasks = (
          fd,
          ap
              (λ h.
                s.spawned
                ++ (tap_reader s.next fd s.next_token
                    ∷ (tap_writers Sender d v show_ip s.next fd h
                        ++ (keepalive s.next (is_ipv6 config.remote) s.next_token
                            ∷ (if is_auto config.mtu
                                then pmtud s.next config.remote s.next_token ∷ []
                                else [])))))
              h,
        );
        has_token = ground arith;
        new_next = refl;
        cancels_nothing = refl;
      }

  -- A call that succeeds found no tunnel with the id, and the tunnel is running: registered beside the
  -- old entries, active with its configuration and MTU, after one request, with exactly its tasks
  -- started on one device with the next token, which is kept under the id, and no token cancelled.
  pub create_tunnel-IsRunning :
      (env : Env Sender) (answers : Answers v show_ip) (config : TunnelConfig) (s s' : State)
      → create_tunnel Sender d v show_ip env answers config s ≡ some (s', ok tt)
      → (Registry.find_by_tunnel_id d config.tunnel_id s.registry ≡ []) × IsRunning env config s s'
  create_tunnel-IsRunning env answers config s s' e =
      let (free, (fd, inbox, shape)) =
        create_tunnel_state Sender d v show_ip env answers config s _ s' refl e in
      (
        free,
        subst (IsRunning env config s)
            (sym (shape ∙ secure_keeps Sender d v show_ip answers config _))
            (running env config s inbox fd _),
      )
