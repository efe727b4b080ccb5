-- ===== src/Service.antt =====
-- The tunnel service of the management interface, crates/eoip-rs/src/api/tunnel_svc.rs. The messages
-- are those of crates/eoip-api/proto/eoip.proto. `parse_ip` and `show_ip` are the standard library's.
pub mod Shown
pub mod Statistics
use eo_ip_rs.Base.{
  ltb, ◌==◌, if◌then◌else◌, Result, ok, err, panic, ◌>>=◌, map_err, as_u16, Text, codes, show_nat,
  ℕ, Bool, true, false, Option, none, some, List, [], ◌∷◌, ◌++◌, map,
}
use mathlib.Core.Option
use eo_ip_rs.Proto.Types.{DemuxKey}
use eo_ip_rs.Proto.Types.Addr.{IpAddr}
use eo_ip_rs.Config.{TunnelConfig, effective_iface_name}
use eo_ip_rs.Config.Mtu.{MtuConfig, resolve}
use eo_ip_rs.Net.Mtu.{Lookup}
use eo_ip_rs.Ipsec.Config.{Vici}
use eo_ip_rs.Ipsec.Manager.{Answers}
use eo_ip_rs.Tunnel.Handle.{TunnelHandle}
use eo_ip_rs.Tunnel.Lifecycle.{TunnelState, load}
use eo_ip_rs.Tunnel.Registry
use eo_ip_rs.Tunnel.Registry.{DashMap}
use eo_ip_rs.Tunnel.Manager.{Env, TunnelManager}
use eo_ip_rs.Tunnel.Manager.Create
use eo_ip_rs.Tunnel.Manager.Destroy

-- A status of the remote procedure call, with its text.
pub data Status : Type 0 where
  invalid_argument internal not_found : Text → Status

-- A tunnel as it is shown. The state's values have the names of the program's states.
pub record Tunnel : Type 0 where
  pub tunnel_id : ℕ
  pub local_addr : Text
  pub remote_addr : Text
  pub iface_name : Text
  pub mtu : ℕ
  pub enabled : Bool
  pub state : TunnelState
  pub keepalive_interval_secs : ℕ
  pub keepalive_timeout_secs : ℕ
  pub actual_mtu : ℕ
  pub ipsec_secret : Text
  pub ipsec_active : Bool

pub record CreateTunnelRequest : Type 0 where
  pub tunnel_id : ℕ
  pub local_addr : Text
  pub remote_addr : Text
  pub iface_name : Text
  pub mtu : ℕ
  pub ipsec_secret : Text

-- `if s.is_empty() { None } else { Some(s) }`
none_if_empty : Text → Option Text
none_if_empty [] = none
none_if_empty (c ∷ cs) = some (c ∷ cs)

stars : Option Text → Text
stars none = []
stars (some secret) = codes "***"

mtu_config : ℕ → MtuConfig
mtu_config mtu = if mtu == 0 then MtuConfig.auto else MtuConfig.fixed (as_u16 mtu)

abbrev pub not_found_text : ℕ → Text
not_found_text id = codes "tunnel " ++ (show_nat id ++ codes " not found")

with_address : Text → Option IpAddr → Text → Result IpAddr Status
with_address name none text =
    err (invalid_argument (codes "invalid " ++ (name ++ (codes ": " ++ text))))
with_address name (some ip) text = ok ip

module _ (parse_ip : Text → Option IpAddr) where
  -- The configuration that a request asks for.
  unfoldable pub requested : CreateTunnelRequest → Result TunnelConfig Status
  unfolding none_if_empty mtu_config with_address
  requested req = do
    local ← with_address (codes "local_addr") (parse_ip req.local_addr) req.local_addr
    remote ← with_address (codes "remote_addr") (parse_ip req.remote_addr) req.remote_addr
    ok record {
      tunnel_id = as_u16 req.tunnel_id;
      local = local;
      remote = remote;
      iface_name = none_if_empty req.iface_name;
      mtu = mtu_config req.mtu;
      enabled = true;
      keepalive_interval_secs = 10;
      keepalive_timeout_secs = 100;
      clamp_tcp_mss = true;
      ipsec_secret = none_if_empty req.ipsec_secret;
    }

module _ (Sender : Type 0) (d : DashMap DemuxKey ℕ) (v : Vici) (show_ip : IpAddr → Text) where
  abbrev State : Type 0
  State = TunnelManager Sender d v show_ip

  unfoldable pub tunnel_to_proto : Lookup → DemuxKey → TunnelHandle Sender → Tunnel
  unfolding load resolve effective_iface_name stars
  tunnel_to_proto lookup key handle =
      let configured_mtu = resolve lookup handle.config.mtu key.peer_addr in
      record {
        tunnel_id = handle.config.tunnel_id;
        local_addr = show_ip handle.config.local;
        remote_addr = show_ip key.peer_addr;
        iface_name = effective_iface_name handle.config;
        mtu = configured_mtu;
        enabled = handle.config.enabled;
        state = load handle.state;
        keepalive_interval_secs = handle.config.keepalive_interval_secs;
        keepalive_timeout_secs = handle.config.keepalive_timeout_secs;
        actual_mtu = (if ltb 0 handle.actual_mtu then handle.actual_mtu else configured_mtu);
        ipsec_secret = stars handle.config.ipsec_secret;
        ipsec_active = false;
      }

  -- The first entry, or the status.
  first_entry : Lookup → Status → List (DemuxKey × ℕ) → State → Result Tunnel Status
  unfolding tunnel_to_proto
  first_entry lookup status [] s = err status
  first_entry lookup status ((key, p) ∷ entries) s = ok (tunnel_to_proto lookup key (s.handles p))

  unfoldable pub get_tunnel : Lookup → (tunnel_id : ℕ) → State → Result Tunnel Status
  unfolding first_entry Registry.find_by_tunnel_id
  get_tunnel lookup tunnel_id s =
      let tid = as_u16 tunnel_id in
      first_entry lookup (not_found (not_found_text tid))
        (Registry.find_by_tunnel_id d tid s.registry) s

  -- The request's fields are not looked at: the tunnel stays as it is.
  unfoldable pub update_tunnel :
      Lookup → (tunnel_id : ℕ) → (enabled : Option Bool) → State → State × Result Tunnel Status
  unfolding first_entry Registry.find_by_tunnel_id
  update_tunnel lookup tunnel_id enabled s =
      let tid = as_u16 tunnel_id in
      (
        s,
        first_entry lookup (not_found (not_found_text tid))
            (Registry.find_by_tunnel_id d tid s.registry) s,
      )

  unfoldable pub list_tunnels : Lookup → State → List Tunnel
  unfolding tunnel_to_proto
  list_tunnels lookup s =
      map (λ (key, p). tunnel_to_proto lookup key (s.handles p)) (d.entries s.registry)

  unfoldable pub delete_tunnel :
      Answers v show_ip → (tunnel_id : ℕ) → State → State × Result (Unit {0}) Status
  unfolding Destroy.destroy_tunnel
  delete_tunnel answers tunnel_id s =
      let (s, r) = Destroy.destroy_tunnel Sender d v show_ip answers (as_u16 tunnel_id) s in
      (s, map_err not_found r)

  answered : Lookup → ℕ → State × Result (Unit {0}) Text → State × Result Tunnel Status
  unfolding first_entry Registry.find_by_tunnel_id
  answered lookup tid (s, ok done) = (
    s,
    first_entry lookup (internal (codes "tunnel created but not found in registry"))
        (Registry.find_by_tunnel_id d tid s.registry) s,
  )
  answered lookup tid (s, err e) = (s, err (internal e))
  answered lookup tid (s, panic) = (s, panic)

  created :
      Env Sender
      → Answers v show_ip
      → Result TunnelConfig Status
      → State
      → Option (State × Result Tunnel Status)
  unfolding answered Create.create_tunnel
  created env answers (err status) s = some (s, err status)
  created env answers panic s = some (s, panic)
  created env answers (ok config) s =
      Option.map (answered env.lookup config.tunnel_id)
        (Create.create_tunnel Sender d v show_ip env answers config s)

  -- `none`: the call waits for the helper.
  unfoldable pub create_tunnel :
      (Text → Option IpAddr)
      → Env Sender
      → Answers v show_ip
      → CreateTunnelRequest
      → State
      → Option (State × Result Tunnel Status)
  unfolding requested created
  create_tunnel parse_ip env answers req s = created env answers (requested parse_ip req) s
