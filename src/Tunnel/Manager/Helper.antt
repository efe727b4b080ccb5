-- ===== src/Tunnel/Manager/Helper.antt =====
-- How the manager gets a TAP device from the helper, crates/eoip-rs/src/tunnel/manager.rs.
pub mod Tap
use eo_ip_rs.Base.{Result, ok, err, panic, Text, codes, ℕ, Option, none, some, List, [], ◌∷◌, ◌++◌}
use eo_ip_rs.Proto.Types.{DemuxKey}
use eo_ip_rs.Proto.Types.Addr.{IpAddr}
use eo_ip_rs.Proto.Wire.{HelperMsg, DaemonMsg}
use eo_ip_rs.Config.{TunnelConfig, effective_iface_name}
use eo_ip_rs.Ipsec.Config.{Vici}
use eo_ip_rs.Ipsec.Manager
use eo_ip_rs.Tunnel.Registry
use eo_ip_rs.Tunnel.Registry.{DashMap}
use mathlib.Core.Option
use eo_ip_rs.Tunnel.Manager.{Received, Env, TunnelManager, remove_key}

-- The loop that takes messages until one is neither a raw socket nor an error; `none`: it waits.
unfoldable pub drain : List Received → Option (List Received)
drain [] = none
drain (ok (HelperMsg.raw_socket f, fd) ∷ inbox) = drain inbox
drain (ok (HelperMsg.error m, fd) ∷ inbox) = drain inbox
drain (ok (HelperMsg.tap_created n t, fd) ∷ inbox) = some inbox
drain (ok (HelperMsg.helper_ready, fd) ∷ inbox) = some inbox
drain (err e ∷ inbox) = some inbox
drain (panic ∷ inbox) = some inbox

module _ (Sender : Type 0) (d : DashMap DemuxKey ℕ) (v : Vici) (show_ip : IpAddr → Text) where
  abbrev State : Type 0
  State = TunnelManager Sender d v show_ip

  -- The lock, the serialization and the sending of the request.
  unfoldable pub ask_helper : Env Sender → DaemonMsg → State → State × Result (Unit {0}) Text
  ask_helper env msg s = elim env.lock [
    | some e ↦ (s, err (codes "helper lock: " ++ e))
    | none ↦ elim (env.serialize msg) [
      | some e ↦ (s, err (codes "serialize: " ++ e))
      | none ↦ elim (env.send msg) [
        | some e ↦ (s, err (codes "send CreateTunnel: " ++ e))
        | none ↦ (record s { sent = s.sent ++ msg ∷ [] }, ok tt)
      ]
    ]
  ]

  opened : ℕ → Option Text → State → State × Result ℕ Text
  opened fd none s = (s, ok fd)
  opened fd (some e) s = (s, err (codes "TapDevice: " ++ e))

  -- A descriptor came with the message, or none did.
  with_fd : Env Sender → TunnelConfig → Option ℕ → State → Option (State × Result ℕ Text)
  unfolding remove_key drain opened
  with_fd env config none s =
      some (remove_key Sender d v show_ip config s, err (codes "no TAP fd received"))
  with_fd env config (some fd) s =
      Option.map (λ inbox. opened fd (env.open_tap fd) (record s { inbox = inbox })) (drain s.inbox)

  -- The first answer of the helper.
  reply : Env Sender → TunnelConfig → Received → State → Option (State × Result ℕ Text)
  unfolding remove_key with_fd
  reply env config (err e) s = some (s, err (codes "recv TapCreated: " ++ e))
  reply env config panic s = some (s, panic)
  reply env config (ok (HelperMsg.tap_created n t, fd)) s = with_fd env config fd s
  reply env config (ok (HelperMsg.error m, fd)) s =
      some (remove_key Sender d v show_ip config s, err (codes "helper error: " ++ m))
  reply env config (ok (HelperMsg.raw_socket f, fd)) s = some (
    remove_key Sender d v show_ip config s,
    err (codes "unexpected: " ++ env.debug (HelperMsg.raw_socket f)),
  )
  reply env config (ok (HelperMsg.helper_ready, fd)) s = some (
    remove_key Sender d v show_ip config s,
    err (codes "unexpected: " ++ env.debug HelperMsg.helper_ready),
  )

  first_reply : Env Sender → TunnelConfig → List Received → State → Option (State × Result ℕ Text)
  unfolding reply
  first_reply env config [] s = none
  first_reply env config (answer ∷ inbox) s = reply env config answer (record s { inbox = inbox })

  asked :
      Env Sender → TunnelConfig → State × Result (Unit {0}) Text → Option (State × Result ℕ Text)
  unfolding first_reply
  asked env config (s, ok done) = first_reply env config s.inbox s
  asked env config (s, err e) = some (s, err e)
  asked env config (s, panic) = some (s, panic)

  -- The block that gets the TAP device; its descriptor stands for it.
  unfoldable pub request_tap :
      Env Sender → TunnelConfig → ℕ → State → Option (State × Result ℕ Text)
  unfolding ask_helper asked effective_iface_name
  request_tap env config mtu s = asked env config (
      ask_helper env
        (DaemonMsg.create_tunnel (effective_iface_name config) config.tunnel_id mtu
          config.clamp_tcp_mss)
        s)
