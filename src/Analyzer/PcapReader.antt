-- ===== src/Analyzer/PcapReader.antt =====
-- crates/eoip-analyzer/src/pcap_reader.rs. The package's readers of the two formats are parameters: what
-- they give, one after the other, is a list, in which `err e` is an error with the text `e`. Where the
-- package takes fields together, they are those that the code reads. A time is its nanoseconds.
pub mod Stripped
pub mod Collected
use eo_ip_rs.Base.{
  ltb, ◌==◌, if◌then◌else◌, length, take, Result, ok, err, panic, ◌>>=◌, ◌>>◌, reject_if, map_err,
  index, slice_from, slice_eq, from_be_bytes, Text, codes, ℕ, zero, suc, ◌+◌, ◌||◌, Option, none,
  some, List, [], ◌∷◌, ◌++◌,
}
use eo_ip_rs.Proto.Error.Shown.{show_bytes}
use eo_ip_rs.Analyzer.Error.{AnalyzerError, io, pcap_parse, packet_too_short, unsupported_protocol}
use eo_ip_rs.Analyzer.Decode.{RawPacket}

-- `DataLink`, of the package: the types that the code tells apart, and any other by its number.
pub data DataLink : Type 0 where
  ethernet raw linux_sll linux_sll2 : DataLink
  other : ℕ → DataLink

-- `pcapng::Block`, of the package.
pub data Block : Type 0 where
  interface_description : DataLink → Block
  enhanced_packet : (interface_id timestamp : ℕ) (bytes : List ℕ) → Block
  simple_packet : (bytes : List ℕ) → Block
  other_block : Block

abbrev pub Packet : Type 0
Packet = Result RawPacket AnalyzerError

-- A reader is what it still gives.
pub record PcapIter : Type 0 where
  pub reader : List (Result (ℕ × List ℕ) Text)
  pub link_type : DataLink

pub record PcapNgIter : Type 0 where
  pub reader : List (Result Block Text)
  pub link_type : DataLink

pub data PcapSource : Type 0 where
  pcap : PcapIter → PcapSource
  pcap_ng : PcapNgIter → PcapSource

-- `PcapReader::new` with the link type of its header, `PcapNgReader::new`, and the `Debug` text of a
-- link type.
pub record PcapFile : Type 0 where
  pub new_pcap : List ℕ → Result (DataLink × List (Result (ℕ × List ℕ) Text)) Text
  pub new_pcap_ng : List ℕ → Result (List (Result Block Text)) Text
  pub show_link : DataLink → Text

ethernet_offset : ℕ → ℕ
ethernet_offset ethertype = if ethertype == 0x8100 then 18 else 14

-- A header of fixed size is taken off.
without_header : ℕ → Text → List ℕ → Result (List ℕ) AnalyzerError
without_header n text bytes =
    reject_if (ltb (length bytes) n) (packet_too_short text) >> slice_from bytes n

module _ (show_link : DataLink → Text) where
  unfoldable pub strip_link_layer : DataLink → List ℕ → Result (List ℕ) AnalyzerError
  unfolding ethernet_offset without_header
  strip_link_layer ethernet bytes = do
    reject_if (ltb (length bytes) 14) (packet_too_short (codes "Ethernet frame too short"))
    e1 ← index bytes 12
    e2 ← index bytes 13
    without_header (ethernet_offset (from_be_bytes e1 e2)) (codes "Ethernet+VLAN frame too short")
        bytes
  strip_link_layer raw bytes = ok bytes
  strip_link_layer linux_sll bytes = without_header 16 (codes "Linux SLL header too short") bytes
  strip_link_layer linux_sll2 bytes = without_header 20 (codes "Linux SLL2 header too short") bytes
  strip_link_layer (other n) bytes =
      err (unsupported_protocol (codes "unsupported link type: " ++ show_link (other n)))

  raw_packet : (timestamp : ℕ) → DataLink → List ℕ → Packet
  unfolding strip_link_layer
  raw_packet timestamp link_type bytes = strip_link_layer link_type bytes >>= λ ip.
      ok (record { timestamp = timestamp; ip_data = ip; full_data = bytes })

  next_pcap : PcapIter → PcapIter × Option Packet
  unfolding raw_packet
  next_pcap it = elim it.reader [
    | [] ↦ (it, none)
    | got ∷ rest ↦ (
      record it { reader = rest },
      some (map_err pcap_parse got >>= λ (ts, bytes). raw_packet ts it.link_type bytes),
    )
  ]

  -- The loop goes on over a description of an interface, of which it takes the link type, and over
  -- blocks without a packet.
  ng_loop : DataLink → List (Result Block Text) → PcapNgIter × Option Packet
  unfolding raw_packet
  ng_loop link_type [] = (record { reader = []; link_type = link_type }, none)
  ng_loop link_type (ok (interface_description own) ∷ rest) = ng_loop own rest
  ng_loop link_type (ok (enhanced_packet id ts bytes) ∷ rest) =
      (record { reader = rest; link_type = link_type }, some (raw_packet ts link_type bytes))
  ng_loop link_type (ok (simple_packet bytes) ∷ rest) =
      (record { reader = rest; link_type = link_type }, some (raw_packet 0 link_type bytes))
  ng_loop link_type (ok other_block ∷ rest) = ng_loop link_type rest
  ng_loop link_type (err e ∷ rest) =
      (record { reader = rest; link_type = link_type }, some (err (pcap_parse e)))
  ng_loop link_type (panic ∷ rest) = (record { reader = rest; link_type = link_type }, some panic)

  unfoldable pub next : PcapSource → PcapSource × Option Packet
  unfolding next_pcap ng_loop
  next (pcap it) = let (it, got) = next_pcap it in (pcap it, got)
  next (pcap_ng it) = let (it, got) = ng_loop it.link_type it.reader in (pcap_ng it, got)

  -- The `for` loop over the source, for at most the given number of packets.
  unfoldable pub collect : ℕ → PcapSource → List Packet
  unfolding next
  collect zero source = []
  collect (suc n) source =
      let (source, got) = next source in
      let rest = collect n source in elim got [ none ↦ [] | some packet ↦ packet ∷ rest ]

-- The four bytes at the front tell the format.
by_magic : PcapFile → (magic file : List ℕ) → Result PcapSource AnalyzerError
by_magic p magic file =
    if slice_eq magic (0x0A ∷ 0x0D ∷ 0x0D ∷ 0x0A ∷ [])
    then map_err pcap_parse (p.new_pcap_ng file)
      >>= (λ blocks. ok (pcap_ng (record { reader = blocks; link_type = ethernet })))
    else if slice_eq magic (0xD4 ∷ 0xC3 ∷ 0xB2 ∷ 0xA1 ∷ [])
        || slice_eq magic (0xA1 ∷ 0xB2 ∷ 0xC3 ∷ 0xD4 ∷ [])
    then map_err pcap_parse (p.new_pcap file)
      >>= (λ (link_type, packets). ok (pcap (record { reader = packets; link_type = link_type })))
    else err (pcap_parse (codes "unrecognized file magic: " ++ show_bytes magic))

-- `PcapSource::open` of a file that can be read; `eof` is the text of the error at its end.
unfoldable pub open_source :
    PcapFile → (eof : Text) → (file : List ℕ) → Result PcapSource AnalyzerError
unfolding by_magic
open_source p eof file = if ltb (length file) 4 then err (io eof) else by_magic p (take 4 file) file
