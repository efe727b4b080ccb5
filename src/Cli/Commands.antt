-- ===== src/Cli/Commands.antt =====
-- crates/eoip-cli/src/commands.rs against the services of the daemon: each request is the call of the
-- service that answers it, on the state of the daemon. What is printed is a value; the stream of
-- events and the answer of the health service are left out.
use eo_ip_rs.Base.{
  ◌==◌, if◌then◌else◌, Result, ok, ◌>>=◌, slice_eq, Text, codes, show_nat, ℕ, Bool, true, false,
  ◌||◌, Option, none, some, List, [], ◌∷◌, ◌++◌,
}
use mathlib.Core.Option
use eo_ip_rs.Proto.Types.{DemuxKey}
use eo_ip_rs.Proto.Types.Addr.{IpAddr}
use eo_ip_rs.Ipsec.Config.{Vici}
use eo_ip_rs.Ipsec.Manager.{Answers}
use eo_ip_rs.Tunnel.Registry.{DashMap}
use eo_ip_rs.Tunnel.Manager.{Env, TunnelManager}
use eo_ip_rs.Service
use eo_ip_rs.Service.{Status, Tunnel, CreateTunnelRequest}
use eo_ip_rs.Service.Statistics.{TunnelStats, GlobalStats, get_stats, get_global_stats}
use eo_ip_rs.Cli.Words.{Dict, dict_get, parse_u32}
use eo_ip_rs.Cli.Parse.{
  Command, Filter, by_tunnel_id, by_name, print, add, remove, enable, disable, set, monitor, stats,
  health, help, quit,
}

-- What a command prints, in the plain form.
pub data Shown : Type 0 where
  table detail : List Tunnel → Shown
  removed : (tunnel_id : ℕ) → Shown
  enabled_tunnel disabled_tunnel : (tunnel_id : ℕ) → Tunnel → Shown
  tunnel_stats : TunnelStats → Shown
  global_stats : GlobalStats → Shown
  help_text nothing events health_status : Shown

or_default : {A : Type 0} → A → Option A → A
or_default a none = a
or_default a (some b) = b

-- `retain` with the filter.
matches : Filter → Tunnel → Bool
matches (by_tunnel_id id) t = t.tunnel_id == id
matches (by_name name) t = slice_eq t.iface_name name

retain : (Tunnel → Bool) → List Tunnel → List Tunnel
retain test [] = []
retain test (t ∷ tunnels) = let rest = retain test tunnels in if test t then t ∷ rest else rest

unfoldable pub filtered : Option Filter → List Tunnel → List Tunnel
unfolding matches retain
filtered none tunnels = tunnels
filtered (some f) tunnels = retain (matches f) tunnels

unfoldable pub add_request :
    ℕ
    → Text
    → (local name : Option Text) → (mtu : Option ℕ) → (ipsec_secret : Option Text)
    → CreateTunnelRequest
unfolding or_default
add_request tunnel_id remote local name mtu ipsec_secret = record {
  tunnel_id = tunnel_id;
  local_addr = or_default (codes "0.0.0.0") local;
  remote_addr = remote;
  iface_name = or_default (codes "eoip" ++ show_nat tunnel_id) name;
  mtu = or_default 0 mtu;
  ipsec_secret = or_default [] ipsec_secret;
}

-- The request of `set`: a value that does not parse is left out without a word.
pub record UpdateTunnelRequest : Type 0 where
  pub tunnel_id : ℕ
  pub enabled : Option Bool
  pub mtu : Option ℕ
  pub keepalive_interval_secs : Option ℕ
  pub keepalive_timeout_secs : Option ℕ

is_yes : Text → Bool
is_yes v = slice_eq v (codes "yes") || slice_eq v (codes "true")

parsed : Option Text → Option ℕ
unfolding parse_u32
parsed none = none
parsed (some v) = parse_u32 v

unfoldable pub set_request : ℕ → Dict → UpdateTunnelRequest
unfolding is_yes parsed dict_get
set_request tunnel_id params = record {
  tunnel_id = tunnel_id;
  enabled = Option.map is_yes (dict_get (codes "enabled") params);
  mtu = parsed (dict_get (codes "mtu") params);
  keepalive_interval_secs = parsed (dict_get (codes "keepalive-interval") params);
  keepalive_timeout_secs = parsed (dict_get (codes "keepalive-timeout") params);
}

unfoldable pub switch_request : ℕ → Bool → UpdateTunnelRequest
switch_request tunnel_id is_enabled = record {
  tunnel_id = tunnel_id;
  enabled = some is_enabled;
  mtu = none;
  keepalive_interval_secs = none;
  keepalive_timeout_secs = none;
}

-- An answer, as it is shown.
shown : {A : Type 0} → (A → Shown) → Result A Status → Result Shown Status
shown f r = r >>= (λ a. ok (f a))

switched : Bool → ℕ → Tunnel → Shown
switched true tunnel_id t = enabled_tunnel tunnel_id t
switched false tunnel_id t = disabled_tunnel tunnel_id t

module _ (Sender : Type 0) (d : DashMap DemuxKey ℕ) (v : Vici) (show_ip : IpAddr → Text)
    (parse_ip : Text → Option IpAddr) (env : Env Sender) (answers : Answers v show_ip) where
  abbrev State : Type 0
  State = TunnelManager Sender d v show_ip

  -- The state of the daemon afterwards, and what is printed or the error.
  abbrev Outcome : Type 0
  Outcome = State × Result Shown Status

  cmd_print : Bool → Option Filter → State → Outcome
  unfolding filtered Service.list_tunnels
  cmd_print is_detail filter s =
      let tunnels = filtered filter (Service.list_tunnels Sender d v show_ip env.lookup s) in
      (s, ok (if is_detail then detail tunnels else table tunnels))

  cmd_add : CreateTunnelRequest → State → Option Outcome
  unfolding Service.create_tunnel shown
  cmd_add req s =
      Option.map (λ (s, r). (s, shown (λ t. detail (t ∷ [])) r))
        (Service.create_tunnel Sender d v show_ip parse_ip env answers req s)

  cmd_remove : ℕ → State → Outcome
  unfolding Service.delete_tunnel shown
  cmd_remove tunnel_id s =
      let (s, r) = Service.delete_tunnel Sender d v show_ip answers tunnel_id s in
      (s, shown (λ done. removed tunnel_id) r)

  -- Of the request, the service looks at the id.
  cmd_enable_disable : ℕ → Bool → State → Outcome
  unfolding switch_request Service.update_tunnel shown switched
  cmd_enable_disable tunnel_id is_enabled s =
      let req = switch_request tunnel_id is_enabled in
      let (s, r) =
        Service.update_tunnel Sender d v show_ip env.lookup req.tunnel_id req.enabled s in
      (s, shown (switched is_enabled tunnel_id) r)

  cmd_set : ℕ → Dict → State → Outcome
  unfolding set_request Service.update_tunnel shown
  cmd_set tunnel_id params s =
      let req = set_request tunnel_id params in
      let (s, r) =
        Service.update_tunnel Sender d v show_ip env.lookup req.tunnel_id req.enabled s in
      (s, shown (λ t. detail (t ∷ [])) r)

  cmd_stats : Option ℕ → State → Outcome
  unfolding get_stats get_global_stats shown
  cmd_stats none s = (s, ok (global_stats (get_global_stats d s.registry s.handles)))
  cmd_stats (some tid) s = (s, shown tunnel_stats (get_stats d tid s.registry s.handles))

  -- `none`: the request waits in the daemon.
  unfoldable pub execute : Command → State → Option Outcome
  unfolding cmd_print add_request cmd_add cmd_remove cmd_enable_disable cmd_set cmd_stats
  execute (print is_detail filter) s = some (cmd_print is_detail filter s)
  execute (add tunnel_id remote local name mtu ipsec_secret) s =
      cmd_add (add_request tunnel_id remote local name mtu ipsec_secret) s
  execute (remove tunnel_id) s = some (cmd_remove tunnel_id s)
  execute (enable tunnel_id) s = some (cmd_enable_disable tunnel_id true s)
  execute (disable tunnel_id) s = some (cmd_enable_disable tunnel_id false s)
  execute (set tunnel_id params) s = some (cmd_set tunnel_id params s)
  execute monitor s = some (s, ok events)
  execute (stats tunnel_id) s = some (cmd_stats tunnel_id s)
  execute health s = some (s, ok health_status)
  execute help s = some (s, ok help_text)
  execute quit s = some (s, ok nothing)
