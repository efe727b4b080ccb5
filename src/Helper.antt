-- ===== src/Helper.antt =====
-- The privileged helper's answers to the daemon, crates/eoip-helper/src/main.rs. What the system does
-- during one request is the record `System`: `err e` is an error with the text `e`. An error of the
-- MSS rule is only logged and is not in the model.
pub mod Answers
pub mod Lacking
pub mod Rawsock
pub mod Mss
use eo_ip_rs.Base.{
  ltb, if◌then◌else◌, Result, ok, err, panic, Text, codes, ℕ, ◌+◌, Bool, true, false, Option, none,
  some, List, [], ◌∷◌, ◌++◌,
}
use eo_ip_rs.Proto.Wire.{HelperMsg, DaemonMsg}

pub record System : Type 0 where
  pub create_tap : Text → Result ℕ Text
  pub set_mtu : Text → ℕ → Result (Unit {0}) Text
  pub send : HelperMsg → Result (Unit {0}) Text
  pub raw_v4 : Result ℕ Text
  pub raw_v6 : Result ℕ Text

-- `out` is what was sent to the daemon, each message with its descriptor.
pub record Helper : Type 0 where
  pub raw_v4_created : Bool
  pub raw_v6_created : Bool
  pub out : List (HelperMsg × Option ℕ)

abbrev pub Step : Type 0 → Type 0
Step A = Helper × Result A Text

-- `?`: the rest is done unless there is an error.
abbrev pub and_then : {A B : Type 0} → Step A → (A → Helper → Step B) → Step B
and_then (s, ok a) rest = rest a s
and_then (s, err e) rest = (s, err e)
and_then (s, panic) rest = (s, panic)

sent : HelperMsg → Option ℕ → Helper → Result (Unit {0}) Text → Step (Unit {0})
sent msg fd s (ok done) = (record s { out = s.out ++ (msg, fd) ∷ [] }, ok tt)
sent msg fd s (err e) = (s, err e)
sent msg fd s panic = (s, panic)

send_msg : System → HelperMsg → Option ℕ → Helper → Step (Unit {0})
unfolding sent
send_msg sys msg fd s = sent msg fd s (sys.send msg)

open_v4 : System → Helper → Step (Unit {0})
unfolding send_msg
open_v4 sys s =
    if s.raw_v4_created
    then (s, ok tt)
    else and_then (s, sys.raw_v4)
        (λ fd s.
          and_then (send_msg sys (HelperMsg.raw_socket 2) (some fd) s)
            (λ done s. (record s { raw_v4_created = true }, ok tt)))

-- An error of the socket is reported to the daemon and is no error of the request.
v6_socket : System → Helper → Result ℕ Text → Step (Unit {0})
unfolding send_msg
v6_socket sys s (ok fd) =
    and_then (send_msg sys (HelperMsg.raw_socket 10) (some fd) s)
      (λ done s. (record s { raw_v6_created = true }, ok tt))
v6_socket sys s (err e) =
    ((send_msg sys (HelperMsg.error (codes "IPv6 raw socket: " ++ e)) none s).0, ok tt)
v6_socket sys s panic = (s, panic)

open_v6 : System → Helper → Step (Unit {0})
unfolding v6_socket
open_v6 sys s = if s.raw_v6_created then (s, ok tt) else v6_socket sys s sys.raw_v6

-- The messages that follow a `TapCreated`.
raw_sockets : System → Helper → Step (Unit {0})
unfolding open_v4 open_v6
raw_sockets sys s = and_then (open_v4 sys s) (λ done s. open_v6 sys s)

unfoldable pub handle_create_tunnel : System → Text → (tunnel_id mtu : ℕ) → Helper → Step (Unit {0})
unfolding send_msg raw_sockets
handle_create_tunnel sys iface_name tunnel_id mtu s =
    and_then (s, sys.create_tap iface_name)
      (λ tap s.
        and_then (s, (if ltb 0 mtu then sys.set_mtu iface_name mtu else ok tt))
          (λ done s.
            and_then (send_msg sys (HelperMsg.tap_created iface_name tunnel_id) (some tap) s)
              (λ done s. raw_sockets sys s)))

-- An error of a request is sent to the daemon.
reported : System → Step (Unit {0}) → Helper
unfolding send_msg
reported sys (s, ok done) = s
reported sys (s, err e) = (send_msg sys (HelperMsg.error e) none s).0
reported sys (s, panic) = s

-- What the loop receives: a message, the end of the connection, or another error.
pub data Got : Type 0 where
  message : DaemonMsg → Got
  disconnected : Got
  failed : Text → Got

-- One turn of `run_persist_mode`; the `Bool` says that the loop goes on.
unfoldable pub persist_turn : System → Got → Helper → Helper × Bool
unfolding handle_create_tunnel reported send_msg
persist_turn sys (message (DaemonMsg.create_tunnel iface_name tunnel_id mtu clamp_tcp_mss)) s =
    (reported sys (handle_create_tunnel sys iface_name tunnel_id mtu s), true)
persist_turn sys (message (DaemonMsg.destroy_tunnel iface_name)) s = (s, true)
persist_turn sys (message DaemonMsg.shutdown) s = (s, false)
persist_turn sys disconnected s = (s, false)
persist_turn sys (failed e) s = ((send_msg sys (HelperMsg.error e) none s).0, true)

-- One turn of `run_exit_mode`: an error ends the loop, and so does `Shutdown`.
unfoldable pub exit_turn : System → Got → Helper → Helper × Result Bool Text
unfolding handle_create_tunnel
exit_turn sys (message (DaemonMsg.create_tunnel iface_name tunnel_id mtu clamp_tcp_mss)) s =
    and_then (handle_create_tunnel sys iface_name tunnel_id mtu s) (λ done s. (s, ok true))
exit_turn sys (message (DaemonMsg.destroy_tunnel iface_name)) s = (s, ok true)
exit_turn sys (message DaemonMsg.shutdown) s = (s, ok false)
exit_turn sys disconnected s = (s, err (codes "helper process disconnected"))
exit_turn sys (failed e) s = (s, err e)
