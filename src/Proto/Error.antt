-- ===== src/Proto/Error.antt =====
-- crates/eoip-proto/src/error.rs. `TapError` and `RawSocketError` carry an `io::Error`, which no
-- modelled code looks into: its message stands for it.
pub mod Shown
use eo_ip_rs.Base.{ℕ, List, Text}
use eo_ip_rs.Proto.Types.Addr.{IpAddr}

pub data EoipError : Type 0 where
  invalid_gre_header : Text → EoipError
  invalid_ether_ip_header : Text → EoipError
  unknown_tunnel : (tunnel_id : ℕ) (peer_addr : IpAddr) → EoipError
  packet_too_short : (got need : ℕ) → EoipError
  tunnel_id_out_of_range : (id max : ℕ) → EoipError
  payload_too_large : (size limit : ℕ) → EoipError
  payload_too_small : (got min : ℕ) → EoipError
  tap_error : (iface source : Text) → EoipError
  raw_socket_error : Text → EoipError
  helper_disconnected : EoipError
  config_error : Text → EoipError
  invalid_magic_bytes : (expected got : List ℕ) → EoipError
  invalid_version : (expected got : ℕ) → EoipError
  wire_serialize : Text → EoipError
