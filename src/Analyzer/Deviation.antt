-- ===== src/Analyzer/Deviation.antt =====
-- crates/eoip-analyzer/src/deviation.rs.
use eo_ip_rs.Base.{
  ltb, ◌==◌, if◌then◌else◌, get_elem?, slice_eq, Text, codes, show_nat, hex_digit, ℕ, ◌/◌, ◌%◌,
  ◌&&◌, not, Option, none, some, List, [], ◌∷◌, ◌++◌,
}
use eo_ip_rs.Proto.Gre.{eoip_magic}

pub data Severity : Type 0 where
  warn error : Severity

pub record Deviation : Type 0 where
  pub severity : Severity
  pub field : Text
  pub message : Text
  pub expected : Text
  pub actual : Text

-- `{:02x}` of each byte.
unfoldable pub show_hex : List ℕ → Text
show_hex [] = []
show_hex (b ∷ bs) = hex_digit (b / 16) ∷ hex_digit (b % 16) ∷ show_hex bs

wrong_magic : List ℕ → List Deviation
wrong_magic magic =
    if slice_eq magic eoip_magic
    then []
    else record {
      severity = error;
      field = codes "gre.magic";
      message = codes "GRE magic bytes do not match MikroTik EoIP";
      expected = codes "20016400";
      actual = show_hex magic;
    }
      ∷ []

wrong_length : (plen actual_remaining : ℕ) → List Deviation
wrong_length plen actual_remaining =
    if ltb 0 plen && not (plen == actual_remaining)
    then record {
      severity = (if ltb actual_remaining plen then error else warn);
      field = codes "gre.payload_len";
      message = codes "Payload length does not match actual data";
      expected = show_nat plen;
      actual = show_nat actual_remaining;
    }
      ∷ []
    else []

small_payload : ℕ → List Deviation
small_payload plen =
    if ltb 0 plen && ltb plen 14
    then record {
      severity = error;
      field = codes "gre.payload_len";
      message = codes "Payload too small for Ethernet frame (min 14)";
      expected = codes ">=14";
      actual = show_nat plen;
    }
      ∷ []
    else []

unfoldable pub check_eoip_deviations : List ℕ → (payload_len actual_remaining : ℕ) → List Deviation
unfolding wrong_magic wrong_length small_payload
check_eoip_deviations magic payload_len actual_remaining =
    wrong_magic magic ++ (wrong_length payload_len actual_remaining ++ small_payload payload_len)

unfoldable pub check_eoipv6_deviations : ℕ → List Deviation
check_eoipv6_deviations version_nibble =
    if version_nibble == 3
    then []
    else record {
      severity = error;
      field = codes "etherip.version";
      message = codes "EtherIP version is not 0x3";
      expected = codes "3";
      actual = show_nat version_nibble;
    }
      ∷ []

unfoldable pub check_udp_shim_deviations : ℕ → List Deviation
check_udp_shim_deviations reserved_byte =
    if reserved_byte == 0
    then []
    else record {
      severity = warn;
      field = codes "udp_shim.reserved";
      message = codes "UDP shim reserved byte is non-zero";
      expected = codes "00";
      actual = show_hex (reserved_byte ∷ []);
    }
      ∷ []

-- `first_4_bytes.get(i).copied().unwrap_or(0)`
byte_or_zero : Option ℕ → ℕ
byte_or_zero (some b) = b
byte_or_zero none = 0

unfoldable pub flag_standard_gre : List ℕ → Deviation
unfolding byte_or_zero
flag_standard_gre first = record {
  severity = warn;
  field = codes "ip.protocol";
  message = codes "IP protocol 47 packet is standard GRE, not MikroTik EoIP";
  expected = codes "20016400";
  actual = show_hex (
      byte_or_zero (get_elem? first 0)
      ∷ byte_or_zero (get_elem? first 1)
      ∷ byte_or_zero (get_elem? first 2)
      ∷ byte_or_zero (get_elem? first 3)
      ∷ []);
}
