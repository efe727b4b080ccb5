-- ===== src/Daemon/Startup.antt =====
-- `run` of crates/eoip-rs/src/main.rs, up to the tasks of the tunnels of the configuration. The
-- registry, the handles and the helper's socket stand in the record of the tunnel manager from the
-- start, though it is built later. A fault of `run` ends the program, so no state goes with it.
pub mod Steps
pub mod Active
pub mod Enabled
pub mod NoIpv6
use eo_ip_rs.Base.{
  ◌==◌, if◌then◌else◌, ok, err, panic, Text, codes, ℕ, suc, ◌+◌, Bool, true, false, Option, none,
  some, List, [], ◌∷◌, ◌++◌,
}
use eo_ip_rs.Proto.Types.{DemuxKey}
use eo_ip_rs.Proto.Types.Addr.{IpAddr}
use eo_ip_rs.Proto.Wire.{HelperMsg, DaemonMsg}
use eo_ip_rs.Config.{TunnelConfig, effective_iface_name}
use eo_ip_rs.Config.Mtu.{resolve_with_ipsec}
use eo_ip_rs.Ipsec.Config.{Vici}
use eo_ip_rs.Ipsec.Manager.{Answers}
use eo_ip_rs.Tunnel.Handle.{put, with_channel_cap}
use eo_ip_rs.Tunnel.Registry
use eo_ip_rs.Tunnel.Registry.{DashMap}
use eo_ip_rs.Tunnel.Manager.{Received, Env, TunnelManager}
use eo_ip_rs.Tunnel.Manager.Create.{activate, spawn_tasks, secure}

-- The outcome: it may also wait for the helper.
pub data Boot (A : Type 0) : Type 0 where
  booted : A → Boot A
  failed : Text → Boot A
  waits : Boot A

-- `?`
abbrev pub on_boot : {A B : Type 0} → Boot A → (A → Boot B) → Boot B
on_boot (booted a) rest = rest a
on_boot (failed e) rest = failed e
on_boot waits rest = waits

-- `Ok` unless there is an error's text.
abbrev pub unless : {A : Type 0} → Option Text → A → Boot A
unless none a = booted a
unless (some e) a = failed e

abbrev pub prefixed : Text → Option Text → Option Text
prefixed text none = none
prefixed text (some e) = some (text ++ e)

unfoldable pub has_secret : TunnelConfig → Bool
has_secret config = elim config.ipsec_secret [ none ↦ false | some secret ↦ true ]

-- The first message about a TAP device. A receive does not panic.
unfoldable pub tap_of : (HelperMsg → Text) → Received → Boot ℕ
tap_of debug (err e) = failed (codes "recv TapCreated: " ++ e)
tap_of debug panic = waits
tap_of debug (ok (HelperMsg.tap_created name id, some fd)) = booted fd
tap_of debug (ok (HelperMsg.tap_created name id, none)) = failed (codes "no TAP fd")
tap_of debug (ok (HelperMsg.error msg, fd)) = failed (codes "helper: " ++ msg)
tap_of debug (ok (HelperMsg.raw_socket f, fd)) =
    failed (codes "unexpected: " ++ debug (HelperMsg.raw_socket f))
tap_of debug (ok (HelperMsg.helper_ready, fd)) =
    failed (codes "unexpected: " ++ debug HelperMsg.helper_ready)

-- The descriptor beside the message that should be about the IPv4 socket, whatever it says.
unfoldable pub v4_of : Received → Boot (Option ℕ)
v4_of (err e) = failed (codes "recv raw v4: " ++ e)
v4_of panic = waits
v4_of (ok (msg, fd)) = booted fd

-- The IPv6 socket, if this is the message about it.
unfoldable pub v6_of : Received → Option ℕ → Option ℕ
v6_of (ok (HelperMsg.raw_socket f, fd)) old = if f == 10 then fd else old
v6_of other old = old

module _ (Sender : Type 0) (d : DashMap DemuxKey ℕ) (v : Vici) (show_ip : IpAddr → Text) where
  abbrev State : Type 0
  State = TunnelManager Sender d v show_ip

  pub record Startup : Type 0 where
    pub manager : State
    pub raw_v4_fd : Option ℕ
    pub raw_v6_fd : Option ℕ
    pub startup_tunnels : List (ℕ × ℕ)

  unfoldable pub first_of : List Received → State → Boot (State × Received)
  first_of [] s = waits
  first_of (answer ∷ inbox) s = booted (record s { inbox = inbox }, answer)

  unfoldable pub receive : State → Boot (State × Received)
  unfolding first_of
  receive s = first_of s.inbox s

  -- The handle of a tunnel, and its entry in the registry.
  unfoldable pub enroll : Env Sender → ℕ → TunnelConfig → State → State
  unfolding with_channel_cap put Registry.insert resolve_with_ipsec has_secret
  enroll env channel_buffer config s =
      let mtu = resolve_with_ipsec env.lookup config.mtu config.remote (has_secret config) in
      let new = with_channel_cap config (env.new_channel channel_buffer s.next) in
      let key : DemuxKey = record { tunnel_id = config.tunnel_id; peer_addr = config.remote } in
      record s {
        registry = (Registry.insert d key s.next s.registry).0;
        handles = put s.next (record new { actual_mtu = mtu }) s.handles;
        next = suc s.next;
      }

  unfoldable pub send_request : Env Sender → TunnelConfig → State → Boot State
  unfolding effective_iface_name resolve_with_ipsec has_secret
  send_request env config s =
      let mtu = resolve_with_ipsec env.lookup config.mtu config.remote (has_secret config) in
      let msg =
        DaemonMsg.create_tunnel (effective_iface_name config) config.tunnel_id mtu
          config.clamp_tcp_mss in
      on_boot (unless (env.serialize msg) tt) (λ done.
        unless (prefixed (codes "send CreateTunnel: ") (env.send msg))
          (record s { sent = s.sent ++ msg ∷ [] }))

  unfoldable pub sockets_unless : Option ℕ → Startup → Boot Startup
  unfolding receive v4_of v6_of
  sockets_unless (some fd) st = booted st
  sockets_unless none st = on_boot (receive st.manager) (λ (s, answer).
      on_boot (v4_of answer) (λ v4_fd. on_boot (receive s) (λ (s, answer).
        booted
          (record st { manager = s; raw_v4_fd = v4_fd; raw_v6_fd = v6_of answer st.raw_v6_fd }))))

  -- Only while there is no IPv4 socket.
  unfoldable pub take_raw_sockets : Startup → Boot Startup
  unfolding sockets_unless
  take_raw_sockets st = sockets_unless st.raw_v4_fd st

  unfoldable pub activated : TunnelConfig → (p fd : ℕ) → Startup → Startup
  unfolding activate
  activated config p fd st = record st {
    manager = activate Sender d v show_ip p st.manager;
    startup_tunnels = st.startup_tunnels ++ (config.tunnel_id, fd) ∷ [];
  }

  -- The body of the first loop, for a tunnel that is enabled.
  unfoldable pub start_one : Env Sender → ℕ → TunnelConfig → Startup → Boot Startup
  unfolding enroll send_request receive tap_of take_raw_sockets activated
  start_one env channel_buffer config st =
      let p = st.manager.next in
      on_boot (send_request env config (enroll env channel_buffer config st.manager)) (λ s.
        on_boot (receive s) (λ (s, answer). on_boot (tap_of env.debug answer) (λ fd.
          on_boot (unless (env.open_tap fd) tt) (λ done.
            on_boot (take_raw_sockets (record st { manager = s }))
              (λ st. booted (activated config p fd st))))))

  unfoldable pub start_tunnels : Env Sender → ℕ → List TunnelConfig → Startup → Boot Startup
  unfolding start_one
  start_tunnels env channel_buffer [] st = booted st
  start_tunnels env channel_buffer (config ∷ configs) st =
      let rest = start_tunnels env channel_buffer configs in
      if config.enabled then on_boot (start_one env channel_buffer config st) rest else rest st

  launch_first : Answers v show_ip → ℕ → List (DemuxKey × ℕ) → State → State
  unfolding spawn_tasks secure
  launch_first answers fd [] s = record s { next_token = suc s.next_token }
  launch_first answers fd ((key, p) ∷ entries) s =
      let config = (s.handles p).config in
      secure Sender d v show_ip answers config (spawn_tasks Sender d v show_ip config p fd s)

  -- The body of the second loop: the handle is the first with the id. The configuration is the
  -- handle's, and its id the entry's.
  unfoldable pub launch : Answers v show_ip → ℕ × ℕ → State → State
  unfolding Registry.find_by_tunnel_id launch_first
  launch answers (tunnel_id, fd) s =
      launch_first answers fd (Registry.find_by_tunnel_id d tunnel_id s.registry) s

  unfoldable pub launch_all : Answers v show_ip → List (ℕ × ℕ) → State → State
  unfolding launch
  launch_all answers [] s = s
  launch_all answers (tunnel ∷ tunnels) s = launch_all answers tunnels (launch answers tunnel s)
