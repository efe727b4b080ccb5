-- ===== src/Analyzer/Ip.antt =====
-- crates/eoip-analyzer/src/ip.rs.
use eo_ip_rs.Base.{
  ltb, ◌==◌, if◌then◌else◌, length, Result, ok, err, ◌>>=◌, ◌>>◌, reject_if, index, slice,
  from_be_bytes, Text, codes, show_nat, ℕ, ◌+◌, ◌*◌, ◌/◌, min, bit_and, ◌||◌, List, [], ◌∷◌, ◌++◌,
}
use eo_ip_rs.Proto.Types.Addr.{IpAddr, v4, v6}
use eo_ip_rs.Analyzer.Error.{AnalyzerError, packet_too_short, unsupported_protocol}

abbrev pub proto_gre : ℕ
proto_gre = 47

abbrev pub proto_etherip : ℕ
proto_etherip = 97

abbrev pub proto_udp : ℕ
proto_udp = 17

pub record Ipv4Header : Type 0 where
  pub header_len : ℕ
  pub total_length : ℕ
  pub ttl : ℕ
  pub protocol : ℕ
  pub src : IpAddr
  pub dst : IpAddr

pub record Ipv6Header : Type 0 where
  pub payload_length : ℕ
  pub next_header : ℕ
  pub hop_limit : ℕ
  pub src : IpAddr
  pub dst : IpAddr

pub data IpHeader : Type 0 where
  header_v4 : Ipv4Header → IpHeader
  header_v6 : Ipv6Header → IpHeader

unfoldable pub protocol : IpHeader → ℕ
protocol (header_v4 h) = h.protocol
protocol (header_v6 h) = h.next_header

unfoldable pub ttl : IpHeader → ℕ
ttl (header_v4 h) = h.ttl
ttl (header_v6 h) = h.hop_limit

-- `IpHeader::src` and `IpHeader::dst`.
unfoldable pub src : IpHeader → IpAddr
src (header_v4 h) = h.src
src (header_v6 h) = h.src

unfoldable pub dst : IpHeader → IpAddr
dst (header_v4 h) = h.dst
dst (header_v6 h) = h.dst

-- `&data[lo..hi]`, with the header.
with_payload : IpHeader → List ℕ → (lo hi : ℕ) → Result (IpHeader × List ℕ) AnalyzerError
with_payload h bytes lo hi = do payload ← slice bytes lo hi; ok (h, payload)

bad_ihl : (ihl header_len got : ℕ) → Text
bad_ihl ihl header_len got =
    codes "IPv4: IHL="
    ++ (show_nat ihl
        ++ (codes " ("
            ++ (show_nat header_len ++ (codes "B) but got " ++ (show_nat got ++ codes "B")))))

unfoldable pub parse_ipv4 : List ℕ → Result (IpHeader × List ℕ) AnalyzerError
unfolding with_payload bad_ihl
parse_ipv4 bytes = do
  reject_if (ltb (length bytes) 20) (
      packet_too_short (codes "IPv4: got " ++ (show_nat (length bytes) ++ codes " bytes, need 20")))
  b0 ← index bytes 0
  let ihl = bit_and b0 0x0F
  let header_len = ihl * 4
  reject_if (ltb header_len 20 || ltb (length bytes) header_len)
      (packet_too_short (bad_ihl ihl header_len (length bytes)))
  l_hi ← index bytes 2
  l_lo ← index bytes 3
  let total_length = from_be_bytes l_hi l_lo
  ttl ← index bytes 8
  protocol ← index bytes 9
  s1 ← index bytes 12
  s2 ← index bytes 13
  s3 ← index bytes 14
  s4 ← index bytes 15
  d1 ← index bytes 16
  d2 ← index bytes 17
  d3 ← index bytes 18
  d4 ← index bytes 19
  with_payload
      (header_v4 (record {
        header_len = header_len;
        total_length = total_length;
        ttl = ttl;
        protocol = protocol;
        src = v4 s1 s2 s3 s4;
        dst = v4 d1 d2 d3 d4;
      }))
      bytes header_len (min total_length (length bytes))

unfoldable pub parse_ipv6 : List ℕ → Result (IpHeader × List ℕ) AnalyzerError
unfolding with_payload
parse_ipv6 bytes = do
  reject_if (ltb (length bytes) 40) (
      packet_too_short (codes "IPv6: got " ++ (show_nat (length bytes) ++ codes " bytes, need 40")))
  l_hi ← index bytes 4
  l_lo ← index bytes 5
  let payload_length = from_be_bytes l_hi l_lo
  next_header ← index bytes 6
  hop_limit ← index bytes 7
  src_bytes ← slice bytes 8 24
  dst_bytes ← slice bytes 24 40
  with_payload
      (header_v6 (record {
        payload_length = payload_length;
        next_header = next_header;
        hop_limit = hop_limit;
        src = v6 src_bytes;
        dst = v6 dst_bytes;
      }))
      bytes 40 (min (40 + payload_length) (length bytes))

unfoldable pub parse_ip_header : List ℕ → Result (IpHeader × List ℕ) AnalyzerError
parse_ip_header [] = err (packet_too_short (codes "IP header: empty"))
parse_ip_header (b0 ∷ rest) =
    if b0 / 16 == 4
    then parse_ipv4 (b0 ∷ rest)
    else if b0 / 16 == 6
    then parse_ipv6 (b0 ∷ rest)
    else err (unsupported_protocol (codes "IP version " ++ show_nat (b0 / 16)))
