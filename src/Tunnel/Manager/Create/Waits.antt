-- ===== src/Tunnel/Manager/Create/Waits.antt =====
-- `create_tunnel` of crates/eoip-rs/src/tunnel/manager.rs on the answers of the helper's loop,
-- crates/eoip-helper/src/main.rs.
use eo_ip_rs.Base.{
  All, ok, Text, ℕ, ◌≡◌, refl, sym, ap, ◌∙◌, inl, inr, Bool, Option, none, some, List, [], ◌∷◌, map,
}
use mathlib.Core.Option
use eo_ip_rs.Tunnel.Registry
use eo_ip_rs.Proto.Types.{DemuxKey}
use eo_ip_rs.Proto.Types.Addr.{IpAddr}
use eo_ip_rs.Proto.Wire.{HelperMsg, DaemonMsg}
use eo_ip_rs.Config.{TunnelConfig}
use eo_ip_rs.Ipsec.Config.{Vici}
use eo_ip_rs.Ipsec.Manager.{Answers}
use eo_ip_rs.Tunnel.Registry.{DashMap}
use eo_ip_rs.Tunnel.Manager.{Received, Env, TunnelManager, register}
use eo_ip_rs.Tunnel.Manager.Helper.{drain}
use eo_ip_rs.Tunnel.Manager.Helper.Tap.{request, request_tap-stuck}
use eo_ip_rs.Tunnel.Manager.Create.{with_tap, create_tunnel}
use eo_ip_rs.Tunnel.Manager.Create.Registered.{mtu_of, create_tunnel_cases}
use eo_ip_rs.Helper.{System, Helper, message, persist_turn}
use eo_ip_rs.Helper.Answers.{IsSkipped, IsAnswer, persist_turn-IsAnswer}

module _ (Sender : Type 0) (d : DashMap DemuxKey ℕ) (v : Vici) (show_ip : IpAddr → Text) where
  abbrev State : Type 0
  State = TunnelManager Sender d v show_ip

  abbrev received : List (HelperMsg × Option ℕ) → List Received
  received out = map ok out

  -- The draining passes over the skipped messages and waits for another.
  drain_skipped :
      (out : List (HelperMsg × Option ℕ)) → All IsSkipped out → drain (received out) ≡ none
  unfolding drain IsSkipped
  drain_skipped [] all = refl
  drain_skipped ((HelperMsg.raw_socket f, fd) ∷ out) (skipped, all) = drain_skipped out all
  drain_skipped ((HelperMsg.error m, fd) ∷ out) (skipped, all) = drain_skipped out all
  drain_skipped ((HelperMsg.tap_created n i, fd) ∷ out) (skipped, all) = absurd skipped
  drain_skipped ((HelperMsg.helper_ready, fd) ∷ out) (skipped, all) = absurd skipped

  -- Of the answers to a request, what follows a device does not end the draining.
  drain_answer :
      (name n : Text) (id i fd : ℕ) (out rest : List (HelperMsg × Option ℕ))
      → IsAnswer name id out
      → out ≡ (HelperMsg.tap_created n i, some fd) ∷ rest
      → drain (received rest) ≡ none
  unfolding IsAnswer IsSkipped
  drain_answer name n id i fd out rest (inl all) shape = absurd (rw shape at all).0
  drain_answer name n id i fd out rest (inr (g, more, is, all)) shape =
      let same : (more ≡ rest) = cc (sym is ∙ shape) in rw (← same) (drain_skipped more all)

  -- For a free id, where the request goes out and the socket holds exactly what one turn of the
  -- helper's loop answers to it, with the device first: the call of `create_tunnel` does not return. It
  -- takes the messages on the raw sockets and waits for a further message.
  pub create_tunnel-persist_turn :
      (env : Env Sender) (answers : Answers v show_ip) (config : TunnelConfig) (s : State)
      (sys : System) (name n : Text) (id mtu i fd : ℕ) (clamp : Bool) (h : Helper)
      (rest : List (HelperMsg × Option ℕ))
      → Registry.find_by_tunnel_id d config.tunnel_id s.registry ≡ []
      → env.lock ≡ none
      → env.serialize (request config (mtu_of env config)) ≡ none
      → env.send (request config (mtu_of env config)) ≡ none
      → h.out ≡ []
      → (persist_turn sys (message (DaemonMsg.create_tunnel name id mtu clamp)) h).0.out
        ≡ (HelperMsg.tap_created n i, some fd) ∷ rest
      → s.inbox
        ≡ map ok (persist_turn sys (message (DaemonMsg.create_tunnel name id mtu clamp)) h).0.out
      → create_tunnel Sender d v show_ip env answers config s ≡ none
  unfolding register
  create_tunnel-persist_turn env answers config s sys name n id mtu i fd clamp h rest free unlocked
        written sent empty shape holds =
      let g = register Sender d v show_ip env config (mtu_of env config) s in
      let stuck =
        drain_answer name n id i fd _ rest (persist_turn-IsAnswer sys name id mtu clamp h empty)
          shape in
      elim (create_tunnel_cases Sender d v show_ip env answers config s) [
        | inl (taken, refused) ↦ absurd (taken free)
        | inr (also, asked) ↦
            asked
            ∙ ap (Option.map (with_tap Sender d v show_ip answers config s.next)) (
                request_tap-stuck Sender d v show_ip env config (mtu_of env config) g n i fd
                  (received rest) unlocked written sent (holds ∙ ap (map ok) shape) stuck)
      ]
