-- ===== src/Analyzer/Ethernet.antt =====
-- crates/eoip-analyzer/src/ethernet.rs. The six bytes of an address are a list.
use eo_ip_rs.Base.{
  ltb, ◌==◌, if◌then◌else◌, length, Result, ok, ◌>>=◌, ◌>>◌, reject_if, index, slice, as_u8,
  from_be_bytes, Text, codes, show_nat, ℕ, ◌/◌, bit_and, Bool, Option, none, some, List, [], ◌++◌,
}
use eo_ip_rs.Analyzer.Error.{AnalyzerError, packet_too_short}

pub record VlanTag : Type 0 where
  pub pcp : ℕ
  pub dei : Bool
  pub vid : ℕ

pub record EthernetFrame : Type 0 where
  pub dst_mac : List ℕ
  pub src_mac : List ℕ
  pub vlan : Option VlanTag
  pub ethertype : ℕ
  pub payload_offset : ℕ

-- `tci >> 13`, `(tci >> 12) & 1 == 1` and `tci & 0x0FFF`.
unfoldable pub vlan_tag : ℕ → VlanTag
vlan_tag tci = record {
  pcp = as_u8 (tci / 8192);
  dei = bit_and (tci / 4096) 1 == 1;
  vid = bit_and tci 0x0FFF;
}

too_short : Text → ℕ → Text → AnalyzerError
too_short what got need = packet_too_short (
    codes "Ethernet"
    ++ (what ++ (codes ": got " ++ (show_nat got ++ (codes " bytes, need " ++ need)))))

parse_vlan : List ℕ → (dst_mac src_mac : List ℕ) → Result EthernetFrame AnalyzerError
unfolding vlan_tag too_short
parse_vlan payload dst_mac src_mac = do
  reject_if (ltb (length payload) 18) (too_short (codes "+VLAN") (length payload) (codes "18"))
  t_hi ← index payload 14
  t_lo ← index payload 15
  e_hi ← index payload 16
  e_lo ← index payload 17
  ok (record {
    dst_mac = dst_mac;
    src_mac = src_mac;
    vlan = some (vlan_tag (from_be_bytes t_hi t_lo));
    ethertype = from_be_bytes e_hi e_lo;
    payload_offset = 18;
  })

unfoldable pub parse_ethernet_frame : List ℕ → Result EthernetFrame AnalyzerError
unfolding parse_vlan too_short
parse_ethernet_frame payload = do
  reject_if (ltb (length payload) 14) (too_short [] (length payload) (codes "14"))
  dst_mac ← slice payload 0 6
  src_mac ← slice payload 6 12
  hi ← index payload 12
  lo ← index payload 13
  let ethertype = from_be_bytes hi lo
  if ethertype == 0x8100
      then parse_vlan payload dst_mac src_mac
      else ok (record {
        dst_mac = dst_mac;
        src_mac = src_mac;
        vlan = none;
        ethertype = ethertype;
        payload_offset = 14;
      })
