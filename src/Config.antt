-- ===== src/Config.antt =====
-- crates/eoip-rs/src/config.rs: the configuration after parsing, and its validation.
-- The TOML parser and the file system stand outside: a `Config` is what they deliver.
pub mod Mtu
pub mod Checked
use eo_ip_rs.Base.{
  ltb, length, Result, ok, ◌>>◌, reject_if, slice_eq, Text, codes, show_nat, ℕ, suc, ◌+◌, ◌-◌, ◌/◌,
  Bool, true, false, ◌&&◌, not, Option, none, some, List, [], ◌∷◌, ◌++◌,
}
use eo_ip_rs.Proto.Types.Addr.{IpAddr, is_ipv4, is_ipv6}
use eo_ip_rs.Config.Mtu.{MtuConfig}

pub record TunnelConfig : Type 0 where
  pub tunnel_id : ℕ
  pub local : IpAddr
  pub remote : IpAddr
  pub iface_name : Option Text
  pub mtu : MtuConfig
  pub enabled : Bool
  pub keepalive_interval_secs : ℕ
  pub keepalive_timeout_secs : ℕ
  pub clamp_tcp_mss : Bool
  pub ipsec_secret : Option Text

pub record DaemonConfig : Type 0 where
  pub user : Text
  pub group : Text
  pub helper_mode : Text
  pub helper_socket : Text

pub record ApiConfig : Type 0 where
  pub listen : Text

pub record LoggingConfig : Type 0 where
  pub level : Text
  pub format : Text

pub record PerformanceConfig : Type 0 where
  pub low_water_mark : ℕ
  pub high_water_mark : ℕ
  pub max_batch_size : ℕ
  pub batch_timeout_us : ℕ
  pub channel_buffer : ℕ
  pub rx_workers : ℕ
  pub cpu_affinity : List ℕ

pub record Config : Type 0 where
  pub daemon : DaemonConfig
  pub api : ApiConfig
  pub logging : LoggingConfig
  pub performance : PerformanceConfig
  pub tunnels : List TunnelConfig

-- The values of the `Default` implementations.
abbrev pub default_daemon : DaemonConfig
default_daemon = record {
  user = codes "eoip";
  group = codes "eoip";
  helper_mode = codes "persist";
  helper_socket = codes "/run/eoip-rs/helper.sock";
}

abbrev pub default_api : ApiConfig
default_api = record { listen = codes "[::1]:50051" }

abbrev pub default_logging : LoggingConfig
default_logging = record { level = codes "info"; format = codes "pretty" }

abbrev pub default_performance : PerformanceConfig
default_performance = record {
  low_water_mark = 8;
  high_water_mark = 256;
  max_batch_size = 64;
  batch_timeout_us = 50;
  channel_buffer = 1024;
  rx_workers = 1;
  cpu_affinity = [];
}

-- The errors of `validate_config`, one for each message, with the values that it prints.
pub data ConfigError : Type 0 where
  bad_helper_mode : Text → ConfigError
  id_exceeds_v6 : (i tunnel_id : ℕ) → ConfigError
  mixed_families : (i : ℕ) (local remote : IpAddr) → ConfigError
  iface_name_too_long : (i : ℕ) → Text → ConfigError

unfoldable pub effective_iface_name : TunnelConfig → Text
effective_iface_name c = elim c.iface_name [
  | some name ↦ name
  | none ↦ codes "eoip" ++ show_nat c.tunnel_id
]

bool_ne : Bool → Bool → Bool
bool_ne true b = not b
bool_ne false b = b

check_iface_name : ℕ → Option Text → Result (Unit {0}) ConfigError
check_iface_name i none = ok tt
check_iface_name i (some name) = reject_if (ltb 15 (length name)) (iface_name_too_long i name)

-- The body of the loop over the tunnels.
unfoldable pub check_tunnel : ℕ → TunnelConfig → Result (Unit {0}) ConfigError
unfolding bool_ne check_iface_name
check_tunnel i t = do
  reject_if (is_ipv6 t.local && ltb 4095 t.tunnel_id) (id_exceeds_v6 i t.tunnel_id)
  reject_if (bool_ne (is_ipv4 t.local) (is_ipv4 t.remote)) (mixed_families i t.local t.remote)
  check_iface_name i t.iface_name

unfoldable pub check_tunnels : ℕ → List TunnelConfig → Result (Unit {0}) ConfigError
check_tunnels i [] = ok tt
check_tunnels i (t ∷ ts) = check_tunnel i t >> check_tunnels (suc i) ts

unfoldable pub validate_config : Config → Result (Unit {0}) ConfigError
validate_config config = do
  reject_if
      (not (slice_eq config.daemon.helper_mode (codes "persist"))
        && not (slice_eq config.daemon.helper_mode (codes "exit")))
      (bad_helper_mode config.daemon.helper_mode)
  check_tunnels 0 config.tunnels
