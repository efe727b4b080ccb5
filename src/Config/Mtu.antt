-- ===== src/Config/Mtu.antt =====
-- `MtuConfig` of crates/eoip-rs/src/config.rs: its resolution and the visitor that reads it.
use eo_ip_rs.Base.{
  ltb, leb, ◌==◌, if◌then◌else◌, Result, ok, err, slice_eq, as_u16, Text, codes, ℕ, ◌+◌, ◌-◌, max,
  Bool, true, false, ◌&&◌, map,
}
use eo_ip_rs.Proto.Types.Addr.{IpAddr}
use eo_ip_rs.Net.Mtu.{Lookup, auto_overlay_mtu, ipsec_esp_overhead, min_overlay_mtu}

pub data MtuConfig : Type 0 where
  auto : MtuConfig
  fixed : ℕ → MtuConfig

-- `mtu.saturating_sub(IPSEC_ESP_OVERHEAD).max(MIN_OVERLAY_MTU)`
less_ipsec : ℕ → ℕ
less_ipsec mtu = max (mtu - ipsec_esp_overhead) min_overlay_mtu

unfoldable pub resolve_with_ipsec : Lookup → MtuConfig → IpAddr → Bool → ℕ
unfolding less_ipsec
resolve_with_ipsec lookup auto remote ipsec =
    let mtu = auto_overlay_mtu lookup remote in if ipsec then less_ipsec mtu else mtu
resolve_with_ipsec lookup (fixed v) remote ipsec = if ipsec then less_ipsec v else v

unfoldable pub resolve : Lookup → MtuConfig → IpAddr → ℕ
resolve lookup c remote = resolve_with_ipsec lookup c remote false

unfoldable pub is_auto : MtuConfig → Bool
is_auto auto = true
is_auto (fixed v) = false

pub data MtuError : Type 0 where
  exceeds_maximum : ℕ → MtuError
  -- `negative n` is the value -(n + 1)
  negative : ℕ → MtuError
  expected_auto : Text → MtuError

unfoldable pub visit_u64 : ℕ → Result MtuConfig MtuError
visit_u64 v =
    if v == 0
    then ok auto
    else if ltb 65535 v
    then err (exceeds_maximum v)
    else ok (fixed (as_u16 v))

-- An `i64` is a number from 0 on, or -(n + 1).
pub data I64 : Type 0 where
  pos : ℕ → I64
  negsuc : ℕ → I64

unfoldable pub visit_i64 : I64 → Result MtuConfig MtuError
visit_i64 (pos v) = visit_u64 v
visit_i64 (negsuc n) = err (negative n)

-- `eq_ignore_ascii_case` folds the letters A to Z.
to_lower : ℕ → ℕ
to_lower c = if leb b'A' c && leb c b'Z' then c + 32 else c

unfoldable pub visit_str : Text → Result MtuConfig MtuError
unfolding to_lower
visit_str v = if slice_eq (map to_lower v) (codes "auto") then ok auto else err (expected_auto v)
