-- ===== src/Tunnel/Manager.antt =====
-- `TunnelManager` of crates/eoip-rs/src/tunnel/manager.rs. A call of a method is one step; the record
-- `Env` says what the system answers during it, and may be another one at each call. `inbox` holds
-- what the helper's socket still gives, message by message or error by error.
pub mod Helper
pub mod Create
pub mod Destroy
pub mod Single
pub mod Concurrent
use eo_ip_rs.Base.{Result, Text, map_insert, ℕ, suc, Bool, Option, List}
use eo_ip_rs.Proto.Types.{DemuxKey}
use eo_ip_rs.Proto.Types.Addr.{IpAddr}
use eo_ip_rs.Proto.Wire.{HelperMsg, DaemonMsg}
use eo_ip_rs.Config.{TunnelConfig}
use eo_ip_rs.Net.Mtu.{Lookup}
use eo_ip_rs.Ipsec.Config.{Vici}
use eo_ip_rs.Ipsec.Manager.{IpsecManager}
use eo_ip_rs.Tunnel.Handle.{Store, put, with_channel_cap}
use eo_ip_rs.Tunnel.Registry
use eo_ip_rs.Tunnel.Registry.{DashMap, TunnelRegistry}

-- What a receive from the helper gives: a message with the descriptor beside it, or an error's text.
abbrev pub Received : Type 0
Received = Result (HelperMsg × Option ℕ) Text

-- The tasks and threads of a tunnel: its handle's pointer, and the token that cancels them.
pub data Task : Type 0 where
  tap_reader : (handle fd token : ℕ) → Task
  tap_writer : (handle fd : ℕ) → Task
  keepalive : (handle : ℕ) (on_v6_socket : Bool) (token : ℕ) → Task
  pmtud : (handle : ℕ) (remote : IpAddr) (token : ℕ) → Task

-- `some e` is an error with the text `e`.
pub record Env (Sender : Type 0) : Type 0 where
  pub lookup : Lookup
  pub new_channel : (capacity pointer : ℕ) → Sender
  pub lock : Option Text
  pub serialize : DaemonMsg → Option Text
  pub send : DaemonMsg → Option Text
  pub open_tap : ℕ → Option Text
  pub debug : HelperMsg → Text

module _ (Sender : Type 0) (d : DashMap DemuxKey ℕ) (v : Vici) (show_ip : IpAddr → Text) where
  -- `tasks` maps an id to its token. Pointers and tokens are given out in turn.
  pub record TunnelManager : Type 0 where
    pub registry : TunnelRegistry d
    pub handles : Store Sender
    pub next : ℕ
    pub sent : List DaemonMsg
    pub inbox : List Received
    pub tasks : List (ℕ × ℕ)
    pub next_token : ℕ
    pub cancelled : List ℕ
    pub spawned : List Task
    pub ipsec : IpsecManager v show_ip

  -- The handle behind a new pointer, and the entry of the registry.
  unfoldable pub register : Env Sender → TunnelConfig → ℕ → TunnelManager → TunnelManager
  unfolding with_channel_cap put Registry.insert
  register env config mtu s =
      let new = with_channel_cap config (env.new_channel 1024 s.next) in
      let key : DemuxKey = record { tunnel_id = config.tunnel_id; peer_addr = config.remote } in
      record s {
        registry = (Registry.insert d key s.next s.registry).0;
        handles = put s.next (record new { actual_mtu = mtu }) s.handles;
        next = suc s.next;
      }

  unfoldable pub remove_key : TunnelConfig → TunnelManager → TunnelManager
  unfolding Registry.remove
  remove_key config s =
      let key : DemuxKey = record { tunnel_id = config.tunnel_id; peer_addr = config.remote } in
      record s { registry = (Registry.remove d key s.registry).0 }

  unfoldable pub register_startup_tunnel : (id token : ℕ) → TunnelManager → TunnelManager
  register_startup_tunnel id token s = record s { tasks = map_insert id token s.tasks }
