-- ===== src/Tunnel/Manager/Destroy.antt =====
-- `destroy_tunnel` of crates/eoip-rs/src/tunnel/manager.rs.
pub mod Gone
use eo_ip_rs.Base.{
  Result, ok, err, Text, codes, show_nat, map_get, map_remove, ℕ, Option, none, some, List, [], ◌∷◌,
  ◌++◌,
}
use eo_ip_rs.Proto.Types.{DemuxKey}
use eo_ip_rs.Proto.Types.Addr.{IpAddr}
use eo_ip_rs.Ipsec.Config.{Vici}
use eo_ip_rs.Ipsec.Manager
use eo_ip_rs.Ipsec.Manager.{IpsecManager, Answers}
use eo_ip_rs.Tunnel.Handle.{put}
use eo_ip_rs.Tunnel.Lifecycle.{tearing_down, transition, load}
use eo_ip_rs.Tunnel.Registry
use eo_ip_rs.Tunnel.Registry.{DashMap, TunnelRegistry}
use mathlib.Core.Option
use eo_ip_rs.Tunnel.Manager.{TunnelManager}

module _ (Sender : Type 0) (d : DashMap DemuxKey ℕ) (v : Vici) (show_ip : IpAddr → Text) where
  abbrev State : Type 0
  State = TunnelManager Sender d v show_ip

  cancel_tasks : ℕ → Option ℕ → State → State
  cancel_tasks id none s = s
  cancel_tasks id (some token) s = record s {
    tasks = map_remove id s.tasks;
    cancelled = token ∷ s.cancelled;
  }

  -- The entries found are taken down one after the other.
  tear_down : List (DemuxKey × ℕ) → State → State
  unfolding put transition load Registry.remove
  tear_down [] s = s
  tear_down ((key, p) ∷ entries) s =
      let h = s.handles p in
      tear_down entries (record s {
        handles =
            put p (record h { state = (transition h.state (load h.state) tearing_down).0 })
              s.handles;
        registry = (Registry.remove d key s.registry).0;
      })

  -- The registry's part.
  unregister : ℕ → List (DemuxKey × ℕ) → State → State × Result (Unit {0}) Text
  unfolding tear_down
  unregister id [] s = (s, err (codes "tunnel " ++ (show_nat id ++ codes " not found")))
  unregister id (entry ∷ entries) s = (tear_down (entry ∷ entries) s, ok tt)

  unfoldable pub destroy_tunnel : Answers v show_ip → ℕ → State → State × Result (Unit {0}) Text
  unfolding cancel_tasks unregister Manager.teardown_tunnel Registry.find_by_tunnel_id
  destroy_tunnel answers id s =
      let s = record s { ipsec = (Manager.teardown_tunnel v show_ip answers id s.ipsec).0 } in
      let s = cancel_tasks id (map_get id s.tasks) s in
      unregister id (Registry.find_by_tunnel_id d id s.registry) s
