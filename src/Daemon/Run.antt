-- ===== src/Daemon/Run.antt =====
-- The rest of `run` of crates/eoip-rs/src/main.rs: what the daemon has started when it waits for its
-- end. The batcher and the server of the interface are always started.
pub mod Started
pub mod Single
pub mod Boots
use eo_ip_rs.Base.{
  if◌then◌else◌, length, ok, err, panic, Text, codes, ℕ, ◌+◌, ◌*◌, max, Bool, false, ◌||◌, Option,
  none, List, [], ◌∷◌, ◌++◌,
}
use eo_ip_rs.Proto.Types.{DemuxKey}
use eo_ip_rs.Proto.Types.Addr.{IpAddr}
use eo_ip_rs.Proto.Wire.{HelperMsg}
use eo_ip_rs.Config.{TunnelConfig, Config}
use eo_ip_rs.Ipsec.Config.{Vici}
use eo_ip_rs.Ipsec.Manager.{Answers}
use eo_ip_rs.Tunnel.Registry.{DashMap}
use eo_ip_rs.Tunnel.Manager.{Received, Env, TunnelManager}
use eo_ip_rs.Packet.Rx.Loops.{Worker, start_rx_pipeline}
use eo_ip_rs.Daemon.Startup.{
  Boot, booted, failed, waits, on_boot, has_secret, Startup, receive, start_tunnels, launch_all,
}

any_secret : List TunnelConfig → Bool
unfolding has_secret
any_secret [] = false
any_secret (config ∷ configs) = has_secret config || any_secret configs

-- The first message of the helper.
ready_of : (HelperMsg → Text) → Received → Boot (Unit {0})
ready_of debug (err e) = failed (codes "helper handshake failed: " ++ e)
ready_of debug panic = waits
ready_of debug (ok (HelperMsg.helper_ready, fd)) = booted tt
ready_of debug (ok (HelperMsg.tap_created name id, fd)) =
    failed (codes "unexpected helper msg: " ++ debug (HelperMsg.tap_created name id))
ready_of debug (ok (HelperMsg.raw_socket f, fd)) =
    failed (codes "unexpected helper msg: " ++ debug (HelperMsg.raw_socket f))
ready_of debug (ok (HelperMsg.error msg, fd)) =
    failed (codes "unexpected helper msg: " ++ debug (HelperMsg.error msg))

module _ (Sender : Type 0) (d : DashMap DemuxKey ℕ) (v : Vici) (show_ip : IpAddr → Text) where
  pub record Daemon : Type 0 where
    pub manager : TunnelManager Sender d v show_ip
    pub workers : List Worker
    pub pool_size : ℕ
    pub has_ipsec_monitor : Bool

  assembled : Answers v show_ip → Option ℕ → Config → Startup Sender d v show_ip → Daemon
  unfolding any_secret start_rx_pipeline launch_all
  assembled answers af_packet config st =
      let has_ipsec_tunnels = any_secret config.tunnels in
      let af_packet_fd = if has_ipsec_tunnels then none else af_packet in
      record {
        manager = launch_all Sender d v show_ip answers st.startup_tunnels st.manager;
        workers =
            start_rx_pipeline st.raw_v4_fd st.raw_v6_fd af_packet_fd config.performance.rx_workers
              config.performance.cpu_affinity;
        pool_size =
            config.performance.channel_buffer * max (length config.tunnels) 1 + 32 * 4 + 256;
        has_ipsec_monitor = has_ipsec_tunnels;
      }

  -- `af_packet` is the AF_PACKET socket, if the system grants one. The helper is connected to.
  unfoldable pub run :
      Env Sender
      → Answers v show_ip
      → (af_packet : Option ℕ) → Config
      → TunnelManager Sender d v show_ip
      → Boot Daemon
  unfolding receive ready_of start_tunnels assembled
  run env answers af_packet config s = on_boot (receive Sender d v show_ip s) (λ (s, answer).
      on_boot (ready_of env.debug answer) (λ done.
        on_boot
          (start_tunnels Sender d v show_ip env config.performance.channel_buffer config.tunnels
            (record { manager = s; raw_v4_fd = none; raw_v6_fd = none; startup_tunnels = [] }))
          (λ st. booted (assembled answers af_packet config st))))
