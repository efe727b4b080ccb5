-- ===== src/Proto/Types/Addr.antt =====
-- `std::net::IpAddr` as the program uses it: a family and the octets.
use native.Mathlib.Decide.{ℕ_discrete}
use eo_ip_rs.Base.{ℕ, List, Bool, true, false}

pub data IpAddr : Type 0 where
  v4 : (a b c d : ℕ) → IpAddr
  v6 : (octets : List ℕ) → IpAddr

unfoldable pub is_ipv4 : IpAddr → Bool
is_ipv4 (v4 a b c d) = true
is_ipv4 (v6 octets) = false

unfoldable pub is_ipv6 : IpAddr → Bool
is_ipv6 (v4 a b c d) = false
is_ipv6 (v6 octets) = true

pub IpAddr-discrete : Discrete IpAddr
IpAddr-discrete = hlevel (ℕ_discrete)
