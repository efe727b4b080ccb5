-- ===== src/Ipsec/Manager.antt =====
-- `IpsecManager` of crates/eoip-rs/src/ipsec/mod.rs. What strongSwan answers to a call is an argument,
-- which may depend on the calls before it: `some e` is an error. Nothing panics under the two
-- mutexes, so they are never poisoned, and a call of a method is one step.
pub mod Calls
pub mod Monitor
use eo_ip_rs.Base.{
  if◌then◌else◌, Result, ok, err, Text, codes, map_get, map_remove, map_insert, ℕ, ◌+◌, ◌-◌, Bool,
  false, ◌&&◌, not, Option, none, some, List, [], ◌∷◌, ◌++◌,
}
use eo_ip_rs.Proto.Types.Addr.{IpAddr}
use eo_ip_rs.Ipsec.Config.{
  Vici, IpsecTunnelConfig, conn_name, to_vici_connection, to_vici_shared_secret, to_vici_initiate,
  to_vici_terminate, to_vici_unload,
}

module _ (v : Vici) (show_ip : IpAddr → Text) where
  -- The calls made so far are kept, first to last.
  pub record IpsecManager : Type 0 where
    pub connected : Bool
    pub tunnels : List (ℕ × IpsecTunnelConfig)
    pub calls : List (Text × v.Message)

  abbrev pub Answers : Type 0
  Answers = List (Text × v.Message) → Option Text

  -- `ViciClient::connect` succeeds or not.
  unfoldable pub new : Bool → IpsecManager
  new connects = record { connected = connects; tunnels = []; calls = [] }

  call : Answers → Text → v.Message → IpsecManager → IpsecManager × Option Text
  call answers command message s =
      let calls = s.calls ++ (command, message) ∷ [] in (record s { calls = calls }, answers calls)

  initiate_loaded :
      Answers → IpsecTunnelConfig → IpsecManager → IpsecManager × Result (Unit {0}) Text
  unfolding call
  initiate_loaded answers cfg s =
      let (s, ignored) = call answers (codes "initiate") (to_vici_initiate v show_ip cfg) s in
      (record s { tunnels = map_insert cfg.tunnel_id cfg s.tunnels }, ok tt)

  after_load_conn :
      Answers
      → IpsecTunnelConfig
      → IpsecManager × Option Text
      → IpsecManager × Result (Unit {0}) Text
  unfolding initiate_loaded
  after_load_conn answers cfg (s, some e) = (s, err (codes "load-conn failed: " ++ e))
  after_load_conn answers cfg (s, none) = initiate_loaded answers cfg s

  after_load_shared :
      Answers
      → IpsecTunnelConfig
      → IpsecManager × Option Text
      → IpsecManager × Result (Unit {0}) Text
  unfolding call after_load_conn
  after_load_shared answers cfg (s, some e) = (s, err (codes "load-shared failed: " ++ e))
  after_load_shared answers cfg (s, none) =
      after_load_conn answers cfg
        (call answers (codes "load-conn") (to_vici_connection v show_ip cfg) s)

  unfoldable pub setup_tunnel :
      Answers
      → ℕ
      → (local remote : IpAddr) → Text
      → IpsecManager
      → IpsecManager × Result (Unit {0}) Text
  unfolding call after_load_shared
  setup_tunnel answers tunnel_id local remote secret s =
      let cfg : IpsecTunnelConfig = record {
        tunnel_id = tunnel_id;
        local_addr = local;
        remote_addr = remote;
        secret = secret;
      } in
      if s.connected
      then after_load_shared answers cfg
          (call answers (codes "load-shared") (to_vici_shared_secret v show_ip cfg) s)
      else (
        s,
        err (codes "strongSwan not available — install strongswan-charon and start the service"),
      )

  -- The errors of both calls are only logged.
  terminate : Answers → IpsecTunnelConfig → IpsecManager → IpsecManager
  unfolding call
  terminate answers cfg s =
      let (s, ignored) = call answers (codes "terminate") (to_vici_terminate v show_ip cfg) s in
      (call answers (codes "unload-conn") (to_vici_unload v show_ip cfg) s).0

  teardown : Answers → ℕ → Option IpsecTunnelConfig → IpsecManager → IpsecManager
  unfolding terminate
  teardown answers tunnel_id none s = s
  teardown answers tunnel_id (some cfg) s =
      let s = record s { tunnels = map_remove tunnel_id s.tunnels } in
      if s.connected then terminate answers cfg s else s

  -- `teardown_tunnel`, which never fails.
  unfoldable pub teardown_tunnel :
      Answers → ℕ → IpsecManager → IpsecManager × Result (Unit {0}) Text
  unfolding teardown
  teardown_tunnel answers tunnel_id s =
      (teardown answers tunnel_id (map_get tunnel_id s.tunnels) s, ok tt)

  -- `established` is what `has_established_sa` answers for a connection's name.
  unfoldable pub is_sa_established : (Text → Bool) → ℕ → IpsecManager → Bool
  is_sa_established established tunnel_id s = elim (map_get tunnel_id s.tunnels) [
    | none ↦ false
    | some cfg ↦ s.connected && established (conn_name cfg)
  ]

  unfoldable pub reinitiate : Answers → ℕ → IpsecManager → IpsecManager
  unfolding call
  reinitiate answers tunnel_id s = elim (map_get tunnel_id s.tunnels) [
    | none ↦ s
    | some cfg ↦
        if s.connected
        then (call answers (codes "initiate") (to_vici_initiate v show_ip cfg) s).0
        else s
  ]
