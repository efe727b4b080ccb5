-- ===== src/Proto/Wire.antt =====
-- The messages of crates/eoip-proto/src/wire.rs. Their encoding is the serializer package's.
use eo_ip_rs.Base.{ℕ, Bool, Text}

pub data HelperMsg : Type 0 where
  tap_created : (iface_name : Text) (tunnel_id : ℕ) → HelperMsg
  raw_socket : (address_family : ℕ) → HelperMsg
  error : Text → HelperMsg
  helper_ready : HelperMsg

pub data DaemonMsg : Type 0 where
  create_tunnel : (iface_name : Text) (tunnel_id mtu : ℕ) (clamp_tcp_mss : Bool) → DaemonMsg
  destroy_tunnel : (iface_name : Text) → DaemonMsg
  shutdown : DaemonMsg
