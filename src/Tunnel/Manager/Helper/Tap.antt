-- ===== src/Tunnel/Manager/Helper/Tap.antt =====
-- What asking for a TAP device changes, crates/eoip-rs/src/tunnel/manager.rs.
use eo_ip_rs.Base.{
  Option-cases, Result, ok, err, panic, Text, codes, ℕ, ◌≡◌, refl, ◌≢◌, ◌⊎◌, inl, inr, Option, none,
  some, List, [], ◌∷◌, ◌++◌,
}
use eo_ip_rs.Proto.Types.{DemuxKey}
use eo_ip_rs.Proto.Types.Addr.{IpAddr}
use eo_ip_rs.Proto.Wire.{HelperMsg, DaemonMsg}
use eo_ip_rs.Config.{TunnelConfig, effective_iface_name}
use eo_ip_rs.Ipsec.Config.{Vici}
use eo_ip_rs.Tunnel.Registry.{DashMap}
use eo_ip_rs.Tunnel.Manager.{Received, Env, TunnelManager, remove_key}
use eo_ip_rs.Tunnel.Manager.Helper.{
  drain, ask_helper, opened, with_fd, reply, first_reply, asked, request_tap,
}

-- The request for a tunnel.
abbrev pub request : TunnelConfig → ℕ → DaemonMsg
request config mtu =
    DaemonMsg.create_tunnel (effective_iface_name config) config.tunnel_id mtu config.clamp_tcp_mss

-- The messages of a call that got its device.
abbrev pub Gave : List Received → Type 0
Gave inbox =
    (name : Text) × (id : ℕ) × (fd : Option ℕ) × (rest left : List Received) × (inbox
      ≡ ok (HelperMsg.tap_created name id, fd) ∷ rest)
    × (drain rest ≡ some left)

module _ (Sender : Type 0) (d : DashMap DemuxKey ℕ) (v : Vici) (show_ip : IpAddr → Text) where
  abbrev State : Type 0
  State = TunnelManager Sender d v show_ip

  -- What an answer may change: the messages, and for an error the registry's entry.
  abbrev Left : TunnelConfig → State → State → Result ℕ Text → Type 0
  Left config s s' r =
      (s' ≡ s) ⊎ ((s' ≡ remove_key Sender d v show_ip config s) × ((tap : ℕ) → r ≢ ok tap))

  with_fd_cases :
      (env : Env Sender) (config : TunnelConfig) (fd : Option ℕ) (s s' : State) (r : Result ℕ Text)
      → with_fd Sender d v show_ip env config fd s ≡ some (s', r)
      → (inbox : List Received) × Left config (record s { inbox = inbox }) s' r
  unfolding with_fd opened
  with_fd_cases env config none s s' r e = (s.inbox, inr (cc, λ tap same. cc))
  with_fd_cases env config (some fd) s s' r e = elim (Option-cases (drain s.inbox)) [
    | inl stuck ↦ absurd (cc (rw stuck at e))
    | inr (inbox, taken) ↦ elim (Option-cases (env.open_tap fd)) [
      | inl fine ↦ (inbox, inl (cc (rw (taken, fine) at e)))
      | inr (text, failed) ↦ (inbox, inl (cc (rw (taken, failed) at e)))
    ]
  ]

  reply_cases :
      (env : Env Sender) (config : TunnelConfig) (answer : Received) (s s' : State)
      (r : Result ℕ Text)
      → reply Sender d v show_ip env config answer s ≡ some (s', r)
      → (inbox : List Received) × Left config (record s { inbox = inbox }) s' r
  unfolding reply
  reply_cases env config (err text) s s' r e = (s.inbox, inl cc)
  reply_cases env config panic s s' r e = (s.inbox, inl cc)
  reply_cases env config (ok (HelperMsg.tap_created n t, fd)) s s' r e =
      with_fd_cases env config fd s s' r e
  reply_cases env config (ok (HelperMsg.error m, fd)) s s' r e = (s.inbox, inr (cc, λ tap same. cc))
  reply_cases env config (ok (HelperMsg.raw_socket f, fd)) s s' r e =
      (s.inbox, inr (cc, λ tap same. cc))
  reply_cases env config (ok (HelperMsg.helper_ready, fd)) s s' r e =
      (s.inbox, inr (cc, λ tap same. cc))

  first_reply_cases :
      (env : Env Sender) (config : TunnelConfig) (inbox : List Received) (s s' : State)
      (r : Result ℕ Text)
      → first_reply Sender d v show_ip env config inbox s ≡ some (s', r)
      → (later : List Received) × Left config (record s { inbox = later }) s' r
  unfolding first_reply
  first_reply_cases env config [] s s' r e = cc
  first_reply_cases env config (answer ∷ inbox) s s' r e =
      reply_cases env config answer (record s { inbox = inbox }) s' r e

  -- A request that was not sent is an error and changes nothing.
  ask_helper_cases :
      (env : Env Sender) (msg : DaemonMsg) (s : State)
      → ((text : Text) × (ask_helper Sender d v show_ip env msg s ≡ (s, err text)))
        ⊎ (ask_helper Sender d v show_ip env msg s
            ≡ (record s { sent = s.sent ++ msg ∷ [] }, ok tt))
  unfolding ask_helper
  ask_helper_cases env msg s = elim (Option-cases env.lock) [
    | inr (text, poisoned) ↦ inl (codes "helper lock: " ++ text, rw poisoned refl)
    | inl free ↦ elim (Option-cases (env.serialize msg)) [
      | inr (text, failed) ↦ inl (codes "serialize: " ++ text, rw (free, failed) refl)
      | inl written ↦ elim (Option-cases (env.send msg)) [
        | inr (text, failed) ↦
            inl (codes "send CreateTunnel: " ++ text, rw (free, written, failed) refl)
        | inl sent ↦ inr (rw (free, written, sent) refl)
      ]
    ]
  ]

  -- A call that asked for a device has sent the request or changed nothing; the rest is as after
  -- an answer.
  pub request_tap_cases :
      (env : Env Sender) (config : TunnelConfig) (mtu : ℕ) (s s' : State) (r : Result ℕ Text)
      → request_tap Sender d v show_ip env config mtu s ≡ some (s', r)
      → ((s' ≡ s) × ((tap : ℕ) → r ≢ ok tap))
        ⊎ ((inbox : List Received) × Left config
              (record s { inbox = inbox; sent = s.sent ++ request config mtu ∷ [] })
              s'
              r)
  unfolding request_tap asked
  request_tap_cases env config mtu s s' r e = elim (ask_helper_cases env (request config mtu) s) [
    | inl (text, failed) ↦ inl (cc (rw failed at e), λ tap same. cc (rw failed at e))
    | inr sent ↦ inr (first_reply_cases env config s.inbox _ s' r (rw sent at e))
  ]

  -- A device that was got came with the first message, and the draining ended.
  with_fd-drain :
      (env : Env Sender) (config : TunnelConfig) (fd : Option ℕ) (s s' : State) (tap : ℕ)
      → with_fd Sender d v show_ip env config fd s ≡ some (s', ok tap)
      → (left : List Received) × (drain s.inbox ≡ some left)
  unfolding with_fd
  with_fd-drain env config none s s' tap e = cc
  with_fd-drain env config (some fd) s s' tap e = elim (Option-cases (drain s.inbox)) [
    | inl stuck ↦ absurd (cc (rw stuck at e))
    | inr (left, taken) ↦ (left, taken)
  ]

  first_reply-Gave :
      (env : Env Sender) (config : TunnelConfig) (inbox : List Received) (s s' : State) (tap : ℕ)
      → first_reply Sender d v show_ip env config inbox s ≡ some (s', ok tap)
      → Gave inbox
  unfolding first_reply reply
  first_reply-Gave env config [] s s' tap e = cc
  first_reply-Gave env config (err text ∷ inbox) s s' tap e = cc
  first_reply-Gave env config (panic ∷ inbox) s s' tap e = cc
  first_reply-Gave env config (ok (HelperMsg.raw_socket f, fd) ∷ inbox) s s' tap e = cc
  first_reply-Gave env config (ok (HelperMsg.error m, fd) ∷ inbox) s s' tap e = cc
  first_reply-Gave env config (ok (HelperMsg.helper_ready, fd) ∷ inbox) s s' tap e = cc
  first_reply-Gave env config (ok (HelperMsg.tap_created n i, fd) ∷ inbox) s s' tap e =
      let (left, drained) = with_fd-drain env config fd _ s' tap e in
      (n, i, fd, inbox, left, refl, drained)

  -- The request is sent and answered with a device, and what follows does not end the draining.
  pub request_tap-stuck :
      (env : Env Sender) (config : TunnelConfig) (mtu : ℕ) (s : State) (name : Text) (id fd : ℕ)
      (rest : List Received)
      → env.lock ≡ none
      → env.serialize (request config mtu) ≡ none
      → env.send (request config mtu) ≡ none
      → s.inbox ≡ ok (HelperMsg.tap_created name id, some fd) ∷ rest
      → drain rest ≡ none
      → request_tap Sender d v show_ip env config mtu s ≡ none
  unfolding request_tap ask_helper asked first_reply reply with_fd
  request_tap-stuck env config mtu s name id fd rest free written sent holds stuck =
      rw (free, written, sent) (rw holds (rw stuck refl))

  -- A call that gets a device found these messages.
  pub request_tap-Gave :
      (env : Env Sender) (config : TunnelConfig) (mtu : ℕ) (s s' : State) (tap : ℕ)
      → request_tap Sender d v show_ip env config mtu s ≡ some (s', ok tap)
      → Gave s.inbox
  unfolding request_tap asked
  request_tap-Gave env config mtu s s' tap e = elim (ask_helper_cases env (request config mtu) s) [
    | inl (text, failed) ↦ absurd (cc (rw failed at e))
    | inr sent ↦ first_reply-Gave env config s.inbox _ s' tap (rw sent at e)
  ]
