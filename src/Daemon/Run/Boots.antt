-- ===== src/Daemon/Run/Boots.antt =====
-- That the daemon starts where nothing goes wrong, crates/eoip-rs/src/main.rs.
use eo_ip_rs.Base.{ok, Text, ℕ, ◌≡◌, refl, ap, ◌∙◌, Option, none, some, List, [], ◌∷◌, ◌++◌, map}
use eo_ip_rs.Proto.Types.{DemuxKey}
use eo_ip_rs.Proto.Types.Addr.{IpAddr}
use eo_ip_rs.Config.{TunnelConfig, effective_iface_name}
use eo_ip_rs.Net.Mtu.{Lookup}
use eo_ip_rs.Ipsec.Config.{Vici}
use eo_ip_rs.Tunnel.Registry.{DashMap}
use eo_ip_rs.Tunnel.Manager.{TunnelManager}
use eo_ip_rs.Daemon.Startup.{
  booted, on_boot, Startup, first_of, receive, tap_of, v4_of, v6_of, enroll, send_request,
  take_raw_sockets, sockets_unless, activated, start_one, start_tunnels,
}
use eo_ip_rs.Tunnel.Manager.Create.{activate}
use eo_ip_rs.Helper.Lacking.{tap}
use eo_ip_rs.Daemon.Startup.NoIpv6.{on, calm, before, asked}
use eo_ip_rs.Daemon.Run.{Daemon, ready_of, assembled, run}
use eo_ip_rs.Ipsec.Manager.{Answers}
use eo_ip_rs.Config.{Config}
use eo_ip_rs.Proto.Wire.{HelperMsg}

-- One `TapCreated` for each tunnel, with the tunnel's device.
abbrev pub taps : (TunnelConfig → ℕ) → List TunnelConfig → List (HelperMsg × Option ℕ)
taps tap_fd [] = []
taps tap_fd (config ∷ configs) =
    tap (tap_fd config) (effective_iface_name config) config.tunnel_id ∷ taps tap_fd configs

-- All enabled.
abbrev pub all_on : List TunnelConfig → List TunnelConfig
all_on [] = []
all_on (config ∷ configs) = on config ∷ all_on configs

module _ (Sender : Type 0) (d : DashMap DemuxKey ℕ) (v : Vici) (show_ip : IpAddr → Text) where
  -- With the IPv4 socket at hand, and these messages in the socket of the helper.
  abbrev waiting :
      TunnelManager Sender d v show_ip
      → ℕ
      → Option ℕ
      → List (ℕ × ℕ)
      → List (HelperMsg × Option ℕ)
      → Startup Sender d v show_ip
  waiting s v4_fd v6_fd started out = record {
    manager = record s { inbox = map ok out };
    raw_v4_fd = some v4_fd;
    raw_v6_fd = v6_fd;
    startup_tunnels = started;
  }

  one_more :
      (lookup : Lookup) (new_channel : ℕ → ℕ → Sender) (debug : HelperMsg → Text) (cap : ℕ)
      (tap_fd : TunnelConfig → ℕ) (v4_fd : ℕ) (config : TunnelConfig)
      (s : TunnelManager Sender d v show_ip) (v6_fd : Option ℕ) (started : List (ℕ × ℕ))
      (out : List (HelperMsg × Option ℕ))
      → (t : TunnelManager Sender d v show_ip) × (start_one Sender d v show_ip
            (calm lookup new_channel debug)
            cap
            (on config)
            (waiting s v4_fd v6_fd started
              (tap (tap_fd config) (effective_iface_name config) config.tunnel_id ∷ out))
          ≡ booted (waiting t v4_fd v6_fd (started ++ (config.tunnel_id, tap_fd config) ∷ []) out))
  unfolding start_one send_request receive first_of tap_of take_raw_sockets sockets_unless activated
      enroll activate
  one_more lookup new_channel debug cap tap_fd v4_fd config s v6_fd started out =
      let e = enroll Sender d v show_ip (calm lookup new_channel debug) cap (on config) s in
      (
        activate Sender d v show_ip s.next
            (record e { sent = e.sent ++ asked lookup (on config) ∷ [] }),
        refl,
      )

  later_ones :
      (lookup : Lookup) (new_channel : ℕ → ℕ → Sender) (debug : HelperMsg → Text) (cap : ℕ)
      (tap_fd : TunnelConfig → ℕ) (v4_fd : ℕ) (configs : List TunnelConfig)
      (s : TunnelManager Sender d v show_ip) (v6_fd : Option ℕ) (started : List (ℕ × ℕ))
      → (su : Startup Sender d v show_ip) × (start_tunnels Sender d v show_ip
            (calm lookup new_channel debug)
            cap
            (all_on configs)
            (waiting s v4_fd v6_fd started (taps tap_fd configs))
          ≡ booted su)
  unfolding start_tunnels
  later_ones lookup new_channel debug cap tap_fd v4_fd [] s v6_fd started = (_, refl)
  later_ones lookup new_channel debug cap tap_fd v4_fd (config ∷ configs) s v6_fd started =
      let (t, one) =
        one_more lookup new_channel debug cap tap_fd v4_fd config s v6_fd started
          (taps tap_fd configs) in
      let (su, rest) =
        later_ones lookup new_channel debug cap tap_fd v4_fd configs t v6_fd
          (started ++ (config.tunnel_id, tap_fd config) ∷ []) in
      (
        su,
        ap
              (λ r. on_boot r (
                start_tunnels Sender d v show_ip (calm lookup new_channel debug) cap
                  (all_on configs)))
              one
            ∙ rest,
      )

  first_boots :
      (lookup : Lookup) (new_channel : ℕ → ℕ → Sender) (debug : HelperMsg → Text) (cap : ℕ)
      (tap_fd : TunnelConfig → ℕ) (v4_fd v6_fd : ℕ) (config : TunnelConfig)
      (s : TunnelManager Sender d v show_ip) (out : List (HelperMsg × Option ℕ))
      → (t : TunnelManager Sender d v show_ip) × (start_one Sender d v show_ip
            (calm lookup new_channel debug)
            cap
            (on config)
            (before Sender d v show_ip s (
              tap (tap_fd config) (effective_iface_name config) config.tunnel_id
              ∷ (HelperMsg.raw_socket 2, some v4_fd)
              ∷ (HelperMsg.raw_socket 10, some v6_fd)
              ∷ out))
          ≡ booted (waiting t v4_fd (some v6_fd) ((config.tunnel_id, tap_fd config) ∷ []) out))
  unfolding start_one send_request receive first_of tap_of take_raw_sockets sockets_unless v4_of
      v6_of activated enroll activate
  first_boots lookup new_channel debug cap tap_fd v4_fd v6_fd config s out =
      let e = enroll Sender d v show_ip (calm lookup new_channel debug) cap (on config) s in
      (
        activate Sender d v show_ip s.next
            (record e { sent = e.sent ++ asked lookup (on config) ∷ [] }),
        refl,
      )

  -- Where every call of the daemon succeeds and the helper sends, after it is ready, the device of the
  -- first tunnel with the two raw sockets and then one device for each further tunnel, the daemon
  -- starts. The configuration has at least one tunnel, and all of them are enabled.
  pub run-boots :
      (lookup : Lookup) (new_channel : ℕ → ℕ → Sender) (debug : HelperMsg → Text)
      (answers : Answers v show_ip) (af_packet : Option ℕ) (tap_fd : TunnelConfig → ℕ)
      (v4_fd v6_fd : ℕ) (first : TunnelConfig) (others : List TunnelConfig) (config : Config)
      (s : TunnelManager Sender d v show_ip)
      → config.tunnels ≡ on first ∷ all_on others
      → (daemon : Daemon Sender d v show_ip) × (run Sender d v show_ip
            (calm lookup new_channel debug)
            answers
            af_packet
            config
            (record s {
              inbox = map ok (
                  (HelperMsg.helper_ready, none)
                  ∷ tap (tap_fd first) (effective_iface_name first) first.tunnel_id
                  ∷ (HelperMsg.raw_socket 2, some v4_fd)
                  ∷ (HelperMsg.raw_socket 10, some v6_fd)
                  ∷ taps tap_fd others);
            })
          ≡ booted daemon)
  unfolding run receive first_of ready_of start_tunnels
  run-boots lookup new_channel debug answers af_packet tap_fd v4_fd v6_fd first others config s
        shape =
      let cap = config.performance.channel_buffer in
      let (t, one) =
        first_boots lookup new_channel debug cap tap_fd v4_fd v6_fd first s (taps tap_fd others) in
      let (su, rest) =
        later_ones lookup new_channel debug cap tap_fd v4_fd others t (some v6_fd)
          ((first.tunnel_id, tap_fd first) ∷ []) in
      let start = before Sender d v show_ip s (
        tap (tap_fd first) (effective_iface_name first) first.tunnel_id
        ∷ (HelperMsg.raw_socket 2, some v4_fd)
        ∷ (HelperMsg.raw_socket 10, some v6_fd)
        ∷ taps tap_fd others) in
      let whole : (start_tunnels Sender d v show_ip (calm lookup new_channel debug) cap
            config.tunnels start
          ≡ booted su) =
        ap (λ cs. start_tunnels Sender d v show_ip (calm lookup new_channel debug) cap cs start)
          shape
        ∙ ap
            (λ r. on_boot r (
              start_tunnels Sender d v show_ip (calm lookup new_channel debug) cap (all_on others)))
            one
        ∙ rest in
      (
        assembled Sender d v show_ip answers af_packet config su,
        ap
            (λ r.
              on_boot r (λ st. booted (assembled Sender d v show_ip answers af_packet config st)))
            whole,
      )
