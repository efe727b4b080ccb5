-- ===== src/Helper/Lacking.antt =====
-- The answers of the helper on a system without IPv6 raw sockets, crates/eoip-helper/src/main.rs.
use eo_ip_rs.Base.{
  ltb, Bool-cases, ok, err, Text, codes, ℕ, ◌≡◌, refl, inl, inr, Bool, true, false, Option, none,
  some, List, [], ◌∷◌, ◌++◌,
}
use eo_ip_rs.Proto.Wire.{HelperMsg, DaemonMsg}
use eo_ip_rs.Helper.{
  System, Helper, message, persist_turn, handle_create_tunnel, reported, raw_sockets, open_v4,
  open_v6, v6_socket, send_msg, sent,
}

-- A system that does all that is asked of it but for the IPv6 raw socket.
abbrev pub without_v6 : (tap_fd v4_fd : ℕ) (reason : Text) → System
without_v6 tap_fd v4_fd reason = record {
  create_tap = λ name. ok tap_fd;
  set_mtu = λ name mtu. ok tt;
  send = λ msg. ok tt;
  raw_v4 = ok v4_fd;
  raw_v6 = err reason;
}

-- The turns for some messages, one after the other.
abbrev pub turns : System → List DaemonMsg → Helper → Helper
turns sys [] h = h
turns sys (msg ∷ msgs) h = turns sys msgs (persist_turn sys (message msg) h).0

abbrev pub tap : ℕ → Text → ℕ → HelperMsg × Option ℕ
tap tap_fd name id = (HelperMsg.tap_created name id, some tap_fd)

abbrev pub missing : Text → HelperMsg × Option ℕ
missing reason = (HelperMsg.error (codes "IPv6 raw socket: " ++ reason), none)

-- The first request is answered by three messages.
pub first_turn :
    (tap_fd v4_fd : ℕ) (reason name : Text) (id mtu : ℕ) (clamp : Bool)
    → (persist_turn
        (without_v6 tap_fd v4_fd reason)
        (message (DaemonMsg.create_tunnel name id mtu clamp))
        (record { raw_v4_created = false; raw_v6_created = false; out = [] })).0
      ≡ record {
        raw_v4_created = true;
        raw_v6_created = false;
        out = tap tap_fd name id ∷ (HelperMsg.raw_socket 2, some v4_fd) ∷ missing reason ∷ [];
      }
unfolding persist_turn handle_create_tunnel reported raw_sockets open_v4 open_v6 v6_socket send_msg
    sent
first_turn tap_fd v4_fd reason name id mtu clamp = elim (Bool-cases (ltb 0 mtu)) [
  | inl set ↦ rw set refl
  | inr unset ↦ rw unset refl
]

-- A later one by two: the missing socket is reported again.
pub later_turn :
    (tap_fd v4_fd : ℕ) (reason name : Text) (id mtu : ℕ) (clamp : Bool)
    (out : List (HelperMsg × Option ℕ))
    → (persist_turn
        (without_v6 tap_fd v4_fd reason)
        (message (DaemonMsg.create_tunnel name id mtu clamp))
        (record { raw_v4_created = true; raw_v6_created = false; out = out })).0
      ≡ record {
        raw_v4_created = true;
        raw_v6_created = false;
        out = (out ++ tap tap_fd name id ∷ []) ++ missing reason ∷ [];
      }
unfolding persist_turn handle_create_tunnel reported raw_sockets open_v4 open_v6 v6_socket send_msg
    sent
later_turn tap_fd v4_fd reason name id mtu clamp out = elim (Bool-cases (ltb 0 mtu)) [
  | inl set ↦ rw set refl
  | inr unset ↦ rw unset refl
]
