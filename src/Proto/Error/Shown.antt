-- ===== src/Proto/Error/Shown.antt =====
-- The text of an error, crates/eoip-proto/src/error.rs. `show_ip` is the text of an address.
use eo_ip_rs.Base.{Text, codes, show_nat, hex_digit, ℕ, ◌/◌, ◌%◌, min, max, List, [], ◌∷◌, ◌++◌}
use eo_ip_rs.Proto.Types.Addr.{IpAddr}
use eo_ip_rs.Proto.Error.{
  EoipError, invalid_gre_header, invalid_ether_ip_header, unknown_tunnel, packet_too_short,
  tunnel_id_out_of_range, payload_too_large, payload_too_small, tap_error, raw_socket_error,
  helper_disconnected, config_error, invalid_magic_bytes, invalid_version, wire_serialize,
}

hex_list : List ℕ → Text
hex_list [] = []
hex_list (b ∷ []) = hex_digit (b / 16) ∷ hex_digit (b % 16) ∷ []
hex_list (b ∷ c ∷ bs) = hex_digit (b / 16) ∷ hex_digit (b % 16) ∷ (codes ", " ++ hex_list (c ∷ bs))

-- `{:02x?}` of a slice.
pub show_bytes : List ℕ → Text
unfolding hex_list
show_bytes bs = codes "[" ++ (hex_list bs ++ codes "]")

-- A text, a number, a text, a number.
two : Text → ℕ → Text → ℕ → Text
two a n b m = a ++ (show_nat n ++ (b ++ show_nat m))

unfoldable pub show_error : (IpAddr → Text) → EoipError → Text
unfolding show_bytes two
show_error show_ip (invalid_gre_header e) = codes "invalid GRE header: " ++ e
show_error show_ip (invalid_ether_ip_header e) = codes "invalid EtherIP header: " ++ e
show_error show_ip (unknown_tunnel id peer) =
    codes "unknown tunnel: id=" ++ (show_nat id ++ (codes " peer=" ++ show_ip peer))
show_error show_ip (packet_too_short got need) =
    two (codes "packet too short: got ") got (codes " bytes, need ") need
show_error show_ip (tunnel_id_out_of_range id max) =
    two (codes "tunnel ID ") id (codes " out of range (max ") max ++ codes ")"
show_error show_ip (payload_too_large size limit) =
    two (codes "payload too large: ") size (codes " bytes exceeds limit of ") limit
show_error show_ip (payload_too_small got min) =
    two (codes "payload too small: ") got (codes " bytes, minimum ") min
show_error show_ip (tap_error iface source) =
    codes "TAP error on interface " ++ (iface ++ (codes ": " ++ source))
show_error show_ip (raw_socket_error e) = codes "raw socket error: " ++ e
show_error show_ip helper_disconnected = codes "helper process disconnected"
show_error show_ip (config_error e) = codes "configuration error: " ++ e
show_error show_ip (invalid_magic_bytes expected got) =
    codes "invalid magic bytes: expected "
    ++ (show_bytes expected ++ (codes ", got " ++ show_bytes got))
show_error show_ip (invalid_version expected got) =
    two (codes "invalid version: expected ") expected (codes ", got ") got
show_error show_ip (wire_serialize e) = codes "wire protocol serialization error: " ++ e
