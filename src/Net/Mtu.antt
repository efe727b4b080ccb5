-- ===== src/Net/Mtu.antt =====
-- crates/eoip-rs/src/net/mtu.rs. What the operating system answers to a lookup of the outgoing
-- interface (`detect_interface_mtu_inner`) is the parameter `lookup`.
use eo_ip_rs.Base.{Result, ok, err, panic, Text, ℕ, ◌-◌, max}
use eo_ip_rs.Proto.Types.Addr.{IpAddr}

abbrev pub eoip_overhead : ℕ
eoip_overhead = 42

abbrev pub ipsec_esp_overhead : ℕ
ipsec_esp_overhead = 38

abbrev pub min_overlay_mtu : ℕ
min_overlay_mtu = 534

abbrev pub Lookup : Type 0
Lookup = IpAddr → Result ℕ Text

or_default : Result ℕ Text → ℕ
or_default (ok mtu) = mtu
or_default (err e) = 1500
or_default panic = 1500

unfoldable pub detect_interface_mtu : Lookup → IpAddr → ℕ
unfolding or_default
detect_interface_mtu lookup remote = or_default (lookup remote)

-- `-` on ℕ is `saturating_sub`.
unfoldable pub auto_overlay_mtu : Lookup → IpAddr → ℕ
auto_overlay_mtu lookup remote =
    max (detect_interface_mtu lookup remote - eoip_overhead) min_overlay_mtu
