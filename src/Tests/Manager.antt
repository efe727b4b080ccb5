-- ===== src/Tests/Manager.antt =====
-- The manager, IPsec, the service and the analyzer on concrete inputs.
use eo_ip_rs.Base.{
  replicate, Result, ok, err, Text, codes, ℕ, ◌+◌, ◌≡◌, refl, inr, true, false, Option, none, some,
  List, [], ◌∷◌, ◌++◌, map, arith,
}
use eo_ip_rs.Proto.Types.{DemuxKey, DemuxKey-discrete}
use eo_ip_rs.Proto.Types.Addr.{IpAddr}
use eo_ip_rs.Proto.Gre.{eoip_magic}
use eo_ip_rs.Proto.Gre.Codec.{header_bytes}
use eo_ip_rs.Proto.Wire.{HelperMsg, DaemonMsg}
use eo_ip_rs.Ipsec.Config.{Vici, IpsecTunnelConfig}
use eo_ip_rs.Ipsec.Manager.{IpsecManager, Answers}
use eo_ip_rs.Helper.{System, Helper, message, persist_turn}
use eo_ip_rs.Tunnel.Handle.{with_channel_cap}
use eo_ip_rs.Tunnel.Registry
use eo_ip_rs.Tunnel.Registry.{DashMap}
use eo_ip_rs.Tunnel.Manager.{Received, Env, TunnelManager}
use eo_ip_rs.Tunnel.Manager.Create.{already_exists, create_tunnel}
use eo_ip_rs.Tunnel.Manager.Create.Running.{IsRunning, create_tunnel-IsRunning}
use eo_ip_rs.Tunnel.Manager.Create.Leftover.{create_tunnel-unsent}
use eo_ip_rs.Tunnel.Manager.Create.Waits.{create_tunnel-persist_turn}
use eo_ip_rs.Analyzer.Error.{AnalyzerError}
use eo_ip_rs.Analyzer.Ethernet.{EthernetFrame}
use eo_ip_rs.Analyzer.Decode.{eoip, decode_eoip, RawPacket}
use eo_ip_rs.Analyzer.Decode.Traffic.{decode_eoip-header_bytes}
use eo_ip_rs.Analyzer.Stats
use eo_ip_rs.Analyzer.Stats.{SessionStats}
use eo_ip_rs.Analyzer.Stats.Tally.{new-IsTally}
use eo_ip_rs.Analyzer.Session.{Cli, analyze, IsCounted, analyze-IsCounted}
use eo_ip_rs.Tests.Models.{list_map}
use eo_ip_rs.Tests.Daemon.{tunnel, peer}

abbrev pub show_ip : IpAddr → Text
show_ip ip = codes "ip"

abbrev pub vici : Vici
vici = record {
  Message = ℕ;
  new = 0;
  section_start = λ name m. m + 1;
  section_end = λ m. m + 1;
  kv_str = λ k x m. m + 1;
  kv_bytes = λ k x m. m + 1;
  list_start = λ name m. m + 1;
  list_item_str = λ x m. m + 1;
  list_end = λ m. m + 1;
}

abbrev pub tunnels : DashMap DemuxKey ℕ
tunnels = list_map DemuxKey-discrete ℕ

abbrev pub State : Type 0
State = TunnelManager ℕ tunnels vici show_ip

abbrev pub env : Env ℕ
env = record {
  lookup = λ remote. ok 1500;
  new_channel = λ capacity pointer. pointer;
  lock = none;
  serialize = λ m. none;
  send = λ m. none;
  open_tap = λ fd. none;
  debug = λ m. codes "message";
}

abbrev pub fine : Answers vici show_ip
fine calls = none

abbrev ipsec : IpsecManager vici show_ip
ipsec = record { connected = true; tunnels = []; calls = [] }

abbrev pub daemon : List Received → State
daemon inbox = record {
  registry = [];
  handles = λ p. with_channel_cap (tunnel p) p;
  next = 0;
  sent = [];
  inbox = inbox;
  tasks = [];
  next_token = 0;
  cancelled = [];
  spawned = [];
  ipsec = ipsec;
}

abbrev tap : Received
tap = ok (HelperMsg.tap_created (codes "tap") 7, some 3)

abbrev full : State
full = daemon (tap ∷ err (codes "closed") ∷ [])

state_of : Option (State × Result (Unit {0}) Text) → State
state_of none = full
state_of (some (s, r)) = s

after : State
unfolding state_of create_tunnel
after = state_of (create_tunnel ℕ tunnels vici show_ip env fine (tunnel 7) full)

create_tunnel-IsRunning_example :
    (Registry.find_by_tunnel_id tunnels 7 full.registry ≡ [])
    × IsRunning ℕ tunnels vici show_ip env (tunnel 7) full after
unfolding after state_of create_tunnel
create_tunnel-IsRunning_example =
    create_tunnel-IsRunning ℕ tunnels vici show_ip env fine (tunnel 7) full after refl

abbrev refusing : Env ℕ
refusing = record env { send = λ m. some (codes "broken pipe") }

create_tunnel-unsent_example :
    (s' : State) × (create_tunnel ℕ tunnels vici show_ip refusing fine (tunnel 7) full
      ≡ some (s', err (codes "send CreateTunnel: broken pipe")))
    × (create_tunnel ℕ tunnels vici show_ip env fine (tunnel 7) s'
        ≡ some (s', err (already_exists 7)))
create_tunnel-unsent_example =
    create_tunnel-unsent ℕ tunnels vici show_ip refusing env fine fine (tunnel 7) (tunnel 7)
      (codes "broken pipe") full (unfold Registry.find_by_tunnel_id in refl) refl refl refl refl

abbrev system : System
system = record {
  create_tap = λ name. ok 5;
  set_mtu = λ name mtu. ok tt;
  send = λ m. ok tt;
  raw_v4 = ok 6;
  raw_v6 = err (codes "no IPv6");
}

abbrev helper : Helper
helper = record { raw_v4_created = false; raw_v6_created = false; out = [] }

answers : List Received
unfolding persist_turn
answers =
    map ok
      (persist_turn system (message (DaemonMsg.create_tunnel (codes "eoip7") 7 1458 true))
        helper).0.out

create_tunnel-persist_turn_example :
    create_tunnel ℕ tunnels vici show_ip env fine (tunnel 7) (daemon answers) ≡ none
create_tunnel-persist_turn_example =
    create_tunnel-persist_turn ℕ tunnels vici show_ip env fine (tunnel 7) (daemon answers) system
      (codes "eoip7") (codes "eoip7") 7 1458 7 5 true helper
      ((HelperMsg.raw_socket 2, some 6)
        ∷ (HelperMsg.error (codes "IPv6 raw socket: " ++ codes "no IPv6"), none)
        ∷ [])
      (unfold Registry.find_by_tunnel_id in refl) refl refl refl refl (unfold persist_turn in refl)
      (unfold answers in refl)

abbrev pub secured : IpsecTunnelConfig
secured = record { tunnel_id = 7; local_addr = peer; remote_addr = peer; secret = codes "secret" }

abbrev frame : List ℕ
frame = replicate 14 0

decode_eoip-header_bytes_example :
    (f : Option EthernetFrame) × (decode_eoip show_ip (header_bytes 7 14 ++ frame) []
      ≡ ok ((eoip eoip_magic 14 7, 7, false, f), []))
decode_eoip-header_bytes_example = decode_eoip-header_bytes show_ip 7 frame [] (inr (omega arith))

abbrev capture : List (Result RawPacket AnalyzerError)
capture =
    err (AnalyzerError.io (codes "truncated"))
    ∷ ok (record { timestamp = 5; ip_data = []; full_data = [] })
    ∷ []

counted : SessionStats
unfolding Stats.new
counted = record Stats.new { total_packets = 2; error_packets = 2 }

abbrev options : Cli
options = record { tunnel_id = some 7; limit = 10; udp_port = 26969 }

analyze-IsCounted_example : IsCounted options 0 capture Stats.new counted
analyze-IsCounted_example =
    analyze-IsCounted show_ip options 0 capture Stats.new counted new-IsTally
      (unfold analyze in unfold counted in unfold Stats.new in refl)
