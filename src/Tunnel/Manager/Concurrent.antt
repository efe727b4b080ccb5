-- ===== src/Tunnel/Manager/Concurrent.antt =====
-- Calls of `create_tunnel`, crates/eoip-rs/src/tunnel/manager.rs, at once. A call is where it stands:
-- before the search by the id, before the entry is made, before the request to the helper, or at its
-- end. The search and the insertion are steps of their own, for which nothing is locked; from the
-- request on the call holds the helper's lock, and what follows it changes only what is the call's.
pub mod Race
use eo_ip_rs.Base.{Result, err, Text, ℕ, ◌≡◌, ◌≢◌, some, []}
use eo_ip_rs.Proto.Types.Addr.{IpAddr}
use eo_ip_rs.Proto.Types.{DemuxKey}
use eo_ip_rs.Config.{TunnelConfig}
use eo_ip_rs.Ipsec.Config.{Vici}
use eo_ip_rs.Ipsec.Manager.{Answers}
use eo_ip_rs.Tunnel.Registry
use eo_ip_rs.Tunnel.Registry.{DashMap}
use eo_ip_rs.Tunnel.Manager.{Env, TunnelManager, register}
use eo_ip_rs.Tunnel.Manager.Helper.{request_tap}
use eo_ip_rs.Tunnel.Manager.Create.{with_tap, already_exists}
use eo_ip_rs.Tunnel.Manager.Create.Registered.{mtu_of}

module _ (Sender : Type 0) (d : DashMap DemuxKey ℕ) (v : Vici) (show_ip : IpAddr → Text) where
  abbrev State : Type 0
  State = TunnelManager Sender d v show_ip

  pub data Call : Type 0 where
    arrived searched : Env Sender → Answers v show_ip → TunnelConfig → Call
    registered : Env Sender → Answers v show_ip → TunnelConfig → (handle : ℕ) → Call
    over : Result (Unit {0}) Text → Call

  -- A step of one call.
  pub data CallStep : Call → State → Call → State → Type 0 where
    refuses :
        {env : Env Sender} {answers : Answers v show_ip} {config : TunnelConfig} {s : State}
        → Registry.find_by_tunnel_id d config.tunnel_id s.registry ≢ []
        → CallStep (arrived env answers config) s (over (err (already_exists config.tunnel_id))) s
    searches :
        {env : Env Sender} {answers : Answers v show_ip} {config : TunnelConfig} {s : State}
        → Registry.find_by_tunnel_id d config.tunnel_id s.registry ≡ []
        → CallStep (arrived env answers config) s (searched env answers config) s
    inserts :
        {env : Env Sender} {answers : Answers v show_ip} {config : TunnelConfig} {s : State}
        → CallStep
            (searched env answers config)
            s
            (registered env answers config s.next)
            (register Sender d v show_ip env config (mtu_of env config) s)
    asks :
        {env : Env Sender} {answers : Answers v show_ip} {config : TunnelConfig} {p : ℕ}
        {s t : State} {r : Result ℕ Text}
        → request_tap Sender d v show_ip env config (mtu_of env config) s ≡ some (t, r)
        → CallStep
            (registered env answers config p)
            s
            (over (with_tap Sender d v show_ip answers config p (t, r)).1)
            (with_tap Sender d v show_ip answers config p (t, r)).0

  -- The steps of two calls in any order.
  pub data Interleaved : Call → Call → State → Call → Call → State → Type 0 where
    done : {a b : Call} {s : State} → Interleaved a b s a b s
    first :
        {a b a' a'' b'' : Call} {s s' s'' : State}
        → CallStep a s a' s'
        → Interleaved a' b s' a'' b'' s''
        → Interleaved a b s a'' b'' s''
    second :
        {a b b' a'' b'' : Call} {s s' s'' : State}
        → CallStep b s b' s'
        → Interleaved a b' s' a'' b'' s''
        → Interleaved a b s a'' b'' s''
