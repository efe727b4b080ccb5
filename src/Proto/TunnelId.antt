-- ===== src/Proto/TunnelId.antt =====
-- `TunnelId` of crates/eoip-proto/src/types.rs: a newtype over `u16`.
use eo_ip_rs.Base.{ℕ, ltb, if◌then◌else◌, Result, ok, err}
use eo_ip_rs.Proto.Error.{EoipError, tunnel_id_out_of_range}

pub record TunnelId : Type 0 where
  pub id : ℕ

abbrev pub max_v6 : ℕ
max_v6 = 4095

unfoldable pub new : ℕ → TunnelId
new id = record { id = id }

unfoldable pub new_v6 : ℕ → Result TunnelId EoipError
new_v6 id =
    if ltb max_v6 id then err (tunnel_id_out_of_range id max_v6) else ok (record { id = id })

unfoldable pub get : TunnelId → ℕ
get t = t.id
