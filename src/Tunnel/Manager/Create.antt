-- ===== src/Tunnel/Manager/Create.antt =====
-- `create_tunnel` of crates/eoip-rs/src/tunnel/manager.rs.
pub mod Registered
pub mod Running
pub mod Waits
pub mod Leftover
pub mod Entries
use eo_ip_rs.Base.{
  if◌then◌else◌, Result, ok, err, panic, Text, codes, show_nat, map_insert, ℕ, suc, ◌+◌, Bool, true,
  false, Option, none, some, List, [], ◌∷◌, ◌++◌, map,
}
use eo_ip_rs.Proto.Types.{DemuxKey}
use eo_ip_rs.Proto.Types.Addr.{IpAddr, is_ipv6}
use eo_ip_rs.Config.{TunnelConfig}
use eo_ip_rs.Config.Mtu.{resolve_with_ipsec, is_auto}
use eo_ip_rs.Ipsec.Config.{Vici}
use eo_ip_rs.Ipsec.Manager
use eo_ip_rs.Ipsec.Manager.{Answers}
use eo_ip_rs.Tunnel.Handle.{TunnelHandle, put}
use eo_ip_rs.Tunnel.Lifecycle.{initializing, configured, active, transition}
use eo_ip_rs.Tunnel.Registry
use eo_ip_rs.Tunnel.Registry.{DashMap}
use mathlib.Core.Option
use eo_ip_rs.Tunnel.Manager.{
  Task, tap_reader, tap_writer, keepalive, pmtud, Env, TunnelManager, register,
}
use eo_ip_rs.Tunnel.Manager.Helper.{request_tap}

abbrev pub already_exists : ℕ → Text
already_exists id = codes "tunnel " ++ (show_nat id ++ codes " already exists")

has_secret : Option Text → Bool
has_secret none = false
has_secret (some secret) = true

began : ℕ → ℕ
unfolding transition
began cell = (transition (transition cell initializing configured).0 configured active).0

module _ (Sender : Type 0) (d : DashMap DemuxKey ℕ) (v : Vici) (show_ip : IpAddr → Text) where
  abbrev State : Type 0
  State = TunnelManager Sender d v show_ip

  -- The two transitions of the new handle.
  unfoldable pub activate : ℕ → State → State
  unfolding put began
  activate p s =
      let h = s.handles p in
      record s { handles = put p (record h { state = began h.state }) s.handles }

  tap_writers : ℕ → ℕ → TunnelHandle Sender → List Task
  tap_writers p fd h = elim h.rx_channel [ none ↦ [] | some tx ↦ tap_writer p fd ∷ [] ]

  -- The tasks are started in this order, under a child of the daemon's token, which is kept.
  unfoldable pub spawn_tasks : TunnelConfig → (p fd : ℕ) → State → State
  unfolding tap_writers is_ipv6 is_auto
  spawn_tasks config p fd s =
      let token = s.next_token in
      let probing = if is_auto config.mtu then pmtud p config.remote token ∷ [] else [] in
      record s {
        next_token = suc token;
        spawned =
            s.spawned
            ++ (tap_reader p fd token
                ∷ (tap_writers p fd (s.handles p)
                    ++ (keepalive p (is_ipv6 config.remote) token ∷ probing)));
        tasks = map_insert config.tunnel_id token s.tasks;
      }

  -- An error of the IPsec setup is only logged.
  unfoldable pub secure : Answers v show_ip → TunnelConfig → State → State
  unfolding Manager.setup_tunnel
  secure answers config s = elim config.ipsec_secret [
    | none ↦ s
    | some secret ↦ record s {
      ipsec =
          (Manager.setup_tunnel v show_ip answers config.tunnel_id config.local config.remote secret
            s.ipsec).0;
    }
  ]

  unfoldable pub with_tap :
      Answers v show_ip → TunnelConfig → ℕ → State × Result ℕ Text → State × Result (Unit {0}) Text
  unfolding activate spawn_tasks secure
  with_tap answers config p (s, ok fd) =
      (secure answers config (spawn_tasks config p fd (activate p s)), ok tt)
  with_tap answers config p (s, err e) = (s, err e)
  with_tap answers config p (s, panic) = (s, panic)

  -- `none`: the call waits for the helper, holding its lock.
  unfoldable pub create_tunnel :
      Env Sender
      → Answers v show_ip
      → TunnelConfig
      → State
      → Option (State × Result (Unit {0}) Text)
  unfolding has_secret register request_tap with_tap Registry.find_by_tunnel_id
  create_tunnel env answers config s =
      let mtu =
        resolve_with_ipsec env.lookup config.mtu config.remote (has_secret config.ipsec_secret) in
      elim (Registry.find_by_tunnel_id d config.tunnel_id s.registry) [
        | entry ∷ entries ↦ some (s, err (already_exists config.tunnel_id))
        | [] ↦ Option.map (with_tap answers config s.next) (
            request_tap Sender d v show_ip env config mtu
              (register Sender d v show_ip env config mtu s))
      ]
