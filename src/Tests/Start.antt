-- ===== src/Tests/Start.antt =====
-- The start of the daemon on concrete inputs.
use eo_ip_rs.Base.{
  inl, inr, sym, ap, ◌∙◌, ◌≢◌, arith, ◌+◌, ok, codes, ℕ, ◌≡◌, refl, none, some, [], ◌∷◌, ◌++◌, map,
}
use eo_ip_rs.Proto.Wire.{HelperMsg}
use eo_ip_rs.Config.{TunnelConfig, Config, effective_iface_name}
use eo_ip_rs.Helper.Lacking.{without_v6, turns, tap}
use eo_ip_rs.Daemon.Startup.{booted, failed, start_tunnels}
use eo_ip_rs.Daemon.Startup.NoIpv6.{on, asked, new_helper, calm, before, start_tunnels-without_v6}
use eo_ip_rs.Daemon.Run.{Daemon, run}
use eo_ip_rs.Daemon.Run.Boots.{taps, run-boots}
use eo_ip_rs.Daemon.Run.Started.{IsServed, run-IsServed}
use eo_ip_rs.Tests.Manager.{State, vici, show_ip, fine, tunnels, env, daemon}
use eo_ip_rs.Tests.Daemon.{tunnel, config}
use eo_ip_rs.Tunnel.Registry
use mathlib.Core.List.Memᴰ
use mathlib.Core.List.{Memᴰ}
use eo_ip_rs.Daemon.Run.Single.{HasUniqueIds, run-IsSingle}
use eo_ip_rs.Tunnel.Manager.Single.{IsSingle, start, destroyed}
use eo_ip_rs.Tunnel.Manager.Destroy.{destroy_tunnel}

start_tunnels-without_v6_example :
    start_tunnels ℕ tunnels vici show_ip
      (calm env.lookup env.new_channel env.debug)
      1024
      (on (tunnel 7) ∷ on (tunnel 8) ∷ on (tunnel 9) ∷ [])
      (before ℕ tunnels vici show_ip
        (daemon [])
        (turns
          (without_v6 3 4 (codes "EAFNOSUPPORT"))
          (asked env.lookup (tunnel 7)
            ∷ asked env.lookup (tunnel 8)
            ∷ asked env.lookup (tunnel 9)
            ∷ [])
          new_helper).out)
    ≡ failed (codes "helper: " ++ (codes "IPv6 raw socket: " ++ codes "EAFNOSUPPORT"))
start_tunnels-without_v6_example =
    start_tunnels-without_v6 ℕ tunnels vici show_ip env.lookup env.new_channel env.debug 1024 3 4
      (codes "EAFNOSUPPORT") (tunnel 7) (tunnel 8) (tunnel 9) [] (daemon [])

abbrev two : Config
two = record config { tunnels = on (tunnel 7) ∷ on (tunnel 8) ∷ [] }

-- Each tunnel has a descriptor of its own.
abbrev device_of : TunnelConfig → ℕ
device_of config = config.tunnel_id + 3

abbrev answered : State
answered = record (daemon []) {
  inbox = map ok (
      (HelperMsg.helper_ready, none)
      ∷ tap (device_of (tunnel 7)) (effective_iface_name (tunnel 7)) 7
      ∷ (HelperMsg.raw_socket 2, some 4)
      ∷ (HelperMsg.raw_socket 10, some 5)
      ∷ taps device_of (tunnel 8 ∷ []));
}

run-boots_example :
    (started : Daemon ℕ tunnels vici show_ip) × (run ℕ tunnels vici show_ip
        (calm env.lookup env.new_channel env.debug)
        fine
        none
        two
        answered
      ≡ booted started)
run-boots_example =
    run-boots ℕ tunnels vici show_ip env.lookup env.new_channel env.debug fine none device_of 4 5
      (tunnel 7) (tunnel 8 ∷ []) two (daemon []) refl

abbrev started :
    (started : Daemon ℕ tunnels vici show_ip) × (run ℕ tunnels vici show_ip
        (calm env.lookup env.new_channel env.debug)
        fine
        none
        two
        answered
      ≡ booted started)
started =
    run-boots ℕ tunnels vici show_ip env.lookup env.new_channel env.debug fine none device_of 4 5
      (tunnel 7) (tunnel 8 ∷ []) two (daemon []) refl

run-IsServed_example : IsServed ℕ tunnels vici show_ip (on (tunnel 8)) started.0.manager
unfolding Registry.new
run-IsServed_example =
    run-IsServed ℕ tunnels vici show_ip (calm env.lookup env.new_channel env.debug) fine none two
      answered started.0 (on (tunnel 8)) refl started.1 (Memᴰ.tail (Memᴰ.head refl)) refl

unique : HasUniqueIds two.tunnels
unique a b mem_a mem_b same = elim (Memᴰ.cases_cons mem_a) [
  | inl first_a ↦ elim (Memᴰ.cases_cons mem_b) [
    | inl first_b ↦ first_a ∙ sym first_b
    | inr last_b ↦ absurd (other_id a b first_a (only last_b) same)
  ]
  | inr last_a ↦ elim (Memᴰ.cases_cons mem_b) [
    | inl first_b ↦ absurd (other_id b a first_b (only last_a) (sym same))
    | inr last_b ↦ only last_a ∙ sym (only last_b)
  ]
]
  where
    only : {c : TunnelConfig} → Memᴰ c (on (tunnel 8) ∷ []) → c ≡ on (tunnel 8)
    only mem = elim (Memᴰ.cases_cons mem) [
      | inl e ↦ e
      | inr none_left ↦ absurd (Memᴰ.not-nil none_left)
    ]

    other_id :
        (a b : TunnelConfig) → a ≡ on (tunnel 7) → b ≡ on (tunnel 8) → a.tunnel_id ≢ b.tunnel_id
    other_id a b is_a is_b e =
        let seven = ap (λ c. c.tunnel_id) is_a in
        let eight = ap (λ c. c.tunnel_id) is_b in ground arith

without_seven : State
unfolding destroy_tunnel
without_seven = (destroy_tunnel ℕ tunnels vici show_ip fine 7 started.0.manager).0

run-IsSingle_example :
    IsSingle tunnels started.0.manager.registry × IsSingle tunnels without_seven.registry
unfolding without_seven destroy_tunnel Registry.new
run-IsSingle_example =
    run-IsSingle ℕ tunnels vici show_ip (calm env.lookup env.new_channel env.debug) fine none two
      answered started.0 without_seven refl unique started.1 (destroyed fine 7 start)
