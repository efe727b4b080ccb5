-- ===== src/Daemon/Startup/NoIpv6.antt =====
-- The start of the daemon beside a helper without IPv6 raw sockets, crates/eoip-rs/src/main.rs and
-- crates/eoip-helper/src/main.rs.
use eo_ip_rs.Base.{
  ok, Text, codes, ℕ, ◌≡◌, refl, ap, ◌∙◌, true, false, Option, none, some, List, [], ◌∷◌, ◌++◌, map,
}
use eo_ip_rs.Proto.Types.{DemuxKey}
use eo_ip_rs.Proto.Types.Addr.{IpAddr}
use eo_ip_rs.Proto.Wire.{HelperMsg, DaemonMsg}
use eo_ip_rs.Config.{TunnelConfig, effective_iface_name}
use eo_ip_rs.Config.Mtu.{resolve_with_ipsec}
use eo_ip_rs.Net.Mtu.{Lookup}
use eo_ip_rs.Ipsec.Config.{Vici}
use eo_ip_rs.Tunnel.Registry.{DashMap}
use eo_ip_rs.Tunnel.Manager.{Env, TunnelManager}
use eo_ip_rs.Helper.{Helper, persist_turn}
use eo_ip_rs.Helper.Lacking.{without_v6, turns, tap, missing, first_turn, later_turn}
use eo_ip_rs.Daemon.Startup.{
  failed, has_secret, Startup, first_of, receive, tap_of, v4_of, v6_of, enroll, send_request,
  take_raw_sockets, sockets_unless, activated, start_one, start_tunnels,
}
use eo_ip_rs.Tunnel.Manager.Create.{activate}

-- A tunnel that is enabled.
abbrev pub on : TunnelConfig → TunnelConfig
on config = record config { enabled = true }

-- What the daemon asks for a tunnel.
abbrev pub asked : Lookup → TunnelConfig → DaemonMsg
asked lookup config =
    DaemonMsg.create_tunnel (effective_iface_name config) config.tunnel_id
      (resolve_with_ipsec lookup config.mtu config.remote (has_secret config)) config.clamp_tcp_mss

-- A helper that has started.
abbrev pub new_helper : Helper
new_helper = record { raw_v4_created = false; raw_v6_created = false; out = [] }

-- A system on which every call of the daemon succeeds.
abbrev pub calm : {Sender : Type 0} → Lookup → (ℕ → ℕ → Sender) → (HelperMsg → Text) → Env Sender
calm lookup new_channel debug = record {
  lookup = lookup;
  new_channel = new_channel;
  lock = none;
  serialize = λ msg. none;
  send = λ msg. none;
  open_tap = λ fd. none;
  debug = debug;
}

-- The answers to three requests.
three_answers :
    (lookup : Lookup) (tap_fd v4_fd : ℕ) (reason : Text) (a b c : TunnelConfig)
    → (turns
        (without_v6 tap_fd v4_fd reason)
        (asked lookup a ∷ asked lookup b ∷ asked lookup c ∷ [])
        new_helper).out
      ≡ tap tap_fd (effective_iface_name a) a.tunnel_id
        ∷ (HelperMsg.raw_socket 2, some v4_fd)
        ∷ missing reason
        ∷ tap tap_fd (effective_iface_name b) b.tunnel_id
        ∷ missing reason
        ∷ tap tap_fd (effective_iface_name c) c.tunnel_id
        ∷ missing reason
        ∷ []
unfolding persist_turn effective_iface_name
three_answers lookup tap_fd v4_fd reason a b c =
    let ma = resolve_with_ipsec lookup a.mtu a.remote (has_secret a) in
    let mb = resolve_with_ipsec lookup b.mtu b.remote (has_secret b) in
    let mc = resolve_with_ipsec lookup c.mtu c.remote (has_secret c) in
    rw
      (
        first_turn tap_fd v4_fd reason (effective_iface_name a) a.tunnel_id ma a.clamp_tcp_mss,
        later_turn tap_fd v4_fd reason (effective_iface_name b) b.tunnel_id mb b.clamp_tcp_mss _,
        later_turn tap_fd v4_fd reason (effective_iface_name c) c.tunnel_id mc c.clamp_tcp_mss _,
      )
      refl

module _ (Sender : Type 0) (d : DashMap DemuxKey ℕ) (v : Vici) (show_ip : IpAddr → Text) where
  -- Nothing has been started yet, and the socket holds these messages.
  abbrev pub before :
      TunnelManager Sender d v show_ip → List (HelperMsg × Option ℕ) → Startup Sender d v show_ip
  before s out = record {
    manager = record s { inbox = map ok out };
    raw_v4_fd = none;
    raw_v6_fd = none;
    startup_tunnels = [];
  }

  on_messages :
      (lookup : Lookup) (new_channel : ℕ → ℕ → Sender) (debug : HelperMsg → Text)
      (cap tap_fd v4_fd : ℕ) (reason : Text) (a b c : TunnelConfig) (configs : List TunnelConfig)
      (s : TunnelManager Sender d v show_ip)
      → start_tunnels Sender d v show_ip
          (calm lookup new_channel debug)
          cap
          (on a ∷ on b ∷ on c ∷ configs)
          (before s (
            tap tap_fd (effective_iface_name a) a.tunnel_id
            ∷ (HelperMsg.raw_socket 2, some v4_fd)
            ∷ missing reason
            ∷ tap tap_fd (effective_iface_name b) b.tunnel_id
            ∷ missing reason
            ∷ tap tap_fd (effective_iface_name c) c.tunnel_id
            ∷ missing reason
            ∷ []))
        ≡ failed (codes "helper: " ++ (codes "IPv6 raw socket: " ++ reason))
  unfolding start_tunnels start_one send_request receive first_of tap_of take_raw_sockets
      sockets_unless v4_of v6_of activated enroll activate
  on_messages lookup new_channel debug cap tap_fd v4_fd reason a b c configs s = refl

  -- Where the helper cannot open an IPv6 raw socket, and everything else succeeds, the start fails at
  -- the third enabled tunnel, with the error that the helper reports for the IPv6 socket at the
  -- second one.
  pub start_tunnels-without_v6 :
      (lookup : Lookup) (new_channel : ℕ → ℕ → Sender) (debug : HelperMsg → Text)
      (cap tap_fd v4_fd : ℕ) (reason : Text) (a b c : TunnelConfig) (configs : List TunnelConfig)
      (s : TunnelManager Sender d v show_ip)
      → start_tunnels Sender d v show_ip
          (calm lookup new_channel debug)
          cap
          (on a ∷ on b ∷ on c ∷ configs)
          (before s
            (turns
              (without_v6 tap_fd v4_fd reason)
              (asked lookup a ∷ asked lookup b ∷ asked lookup c ∷ [])
              new_helper).out)
        ≡ failed (codes "helper: " ++ (codes "IPv6 raw socket: " ++ reason))
  start_tunnels-without_v6 lookup new_channel debug cap tap_fd v4_fd reason a b c configs s =
      ap
        (λ out.
          start_tunnels Sender d v show_ip (calm lookup new_channel debug) cap
            (on a ∷ on b ∷ on c ∷ configs) (before s out))
        (three_answers lookup tap_fd v4_fd reason a b c)
      ∙ on_messages lookup new_channel debug cap tap_fd v4_fd reason a b c configs s
