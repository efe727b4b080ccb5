-- ===== src/Daemon/Windows.antt =====
-- crates/eoip-rs/src/bin/eoip-rs-win.rs: the daemon on Windows, for one tunnel. What the drivers answer
-- is an argument: the frames that the TAP device gives, and whether WinDivert takes a packet. The
-- command line, the log and the sleeps are left out.
pub mod Headers
pub mod Traffic
use eo_ip_rs.Base.{
  ltb, leb, ◌==◌, if◌then◌else◌, length, drop, Result, ok, err, panic, ◌>>=◌, ◌>>◌, index, slice_to,
  slice_from, slice, copy_at, as_u16, add_u64, to_be_bytes, Text, codes, ℕ, ◌+◌, ◌*◌, bit_and, Bool,
  true, false, ◌&&◌, not, Option, none, some, List, [], ◌∷◌, ◌++◌,
}
use eo_ip_rs.Proto.Error.{EoipError}
use eo_ip_rs.Proto.Types.{DemuxKey, TunnelStats}
use eo_ip_rs.Proto.Types.Addr.{IpAddr, v4, v6}
use eo_ip_rs.Proto.Gre.{encode_eoip_header, decode_eoip_header, eoip_header_len}
use eo_ip_rs.Config.{TunnelConfig, Config}
use eo_ip_rs.Tunnel.Handle.{TunnelHandle, with_channel_cap}
use eo_ip_rs.Tunnel.Lifecycle.{initializing, configured, active, transition}
use eo_ip_rs.Tunnel.Registry
use eo_ip_rs.Tunnel.Registry.{DashMap, TunnelRegistry}

-- The address of another family is written as zeros.
octets : IpAddr → List ℕ
octets (v4 a b c d) = a ∷ b ∷ c ∷ d ∷ []
octets (v6 bytes) = 0 ∷ 0 ∷ 0 ∷ 0 ∷ []

-- `buf` has at least 20 bytes at both calls.
unfoldable pub build_ip_header : (total_len protocol : ℕ) (src dst : IpAddr) → List ℕ → List ℕ
unfolding octets
build_ip_header total_len protocol src dst buf =
    let buf = copy_at 0 (0x45 ∷ []) buf in
    let buf = copy_at 1 (0x00 ∷ []) buf in
    let buf = copy_at 2 (to_be_bytes total_len) buf in
    let buf = copy_at 4 (0x00 ∷ 0x00 ∷ []) buf in
    let buf = copy_at 6 (0x00 ∷ 0x00 ∷ []) buf in
    let buf = copy_at 8 (255 ∷ []) buf in
    let buf = copy_at 9 (protocol ∷ []) buf in
    let buf = copy_at 10 (0x00 ∷ 0x00 ∷ []) buf in
    let buf = copy_at 12 (octets src) buf in copy_at 16 (octets dst) buf

-- The buffer of the sending thread, the packets that WinDivert took, in order, and the counters.
pub record WinTx : Type 0 where
  pub pkt : List ℕ
  pub sent : List (List ℕ)
  pub stats : TunnelStats

module _ (send : List ℕ → Bool) (local remote : IpAddr) (tid : ℕ) where
  -- The two headers in front of `n` bytes of payload, and whether the EoIP header could be written.
  unfoldable pub with_headers : (n : ℕ) → List ℕ → Result (List ℕ × Bool) EoipError
  unfolding build_ip_header encode_eoip_header
  with_headers n pkt = do
    ip ← slice_to pkt 20
    let ip = build_ip_header (as_u16 (20 + eoip_header_len + n)) 47 local remote ip
    header ← slice pkt 20 28
    elim (encode_eoip_header tid (as_u16 n) header) [
      | ok header ↦ ok (ip ++ (header ++ drop 28 pkt), true)
      | err e ↦ ok (ip ++ drop 20 pkt, false)
      | panic ↦ panic
    ]

  tx_sent : (n : ℕ) → List ℕ → Bool → WinTx → WinTx
  tx_sent n packet false s = s
  tx_sent n packet true s = record s {
    sent = s.sent ++ packet ∷ [];
    stats = record s.stats {
      tx_packets = add_u64 s.stats.tx_packets 1;
      tx_bytes = add_u64 s.stats.tx_bytes n;
    };
  }

  -- A frame that the device wrote into the buffer behind the room for the headers.
  unfoldable pub tx_turn : List ℕ → WinTx → Result WinTx EoipError
  unfolding tx_sent
  tx_turn frame s =
      let n = length frame in
      let pkt = copy_at 28 frame s.pkt in
      if n == 0 then ok (record s { pkt = pkt }) else (do
        (pkt, built) ← with_headers n pkt
        elim built [
          | false ↦ ok (record s { pkt = pkt })
          | true ↦ do
            packet ← slice_to pkt (20 + eoip_header_len + n)
            ok (tx_sent n packet (send packet) (record s { pkt = pkt }))
        ])

  -- The thread ends at an error of the device.
  unfoldable pub tx_loop : List (Result (List ℕ) Text) → WinTx → Result WinTx EoipError
  tx_loop [] s = ok s
  tx_loop (ok frame ∷ reads) s = tx_turn frame s >>= tx_loop reads
  tx_loop (err e ∷ reads) s = ok s
  tx_loop (panic ∷ reads) s = panic

  -- One round of the keepalive thread: its buffer, and the packet that it sends.
  unfoldable pub ka_turn : List ℕ → Result (List ℕ × Option (List ℕ)) EoipError
  ka_turn pkt = do (pkt, built) ← with_headers 0 pkt; ok (pkt, if built then some pkt else none)

-- The frames handed to the TAP device, the packets put back into the network stack, and the counters.
pub record WinRx : Type 0 where
  pub written : List (List ℕ)
  pub reinjected : List (List ℕ)
  pub stats : TunnelStats

reinject : List ℕ → WinRx → WinRx
reinject packet s = record s { reinjected = s.reinjected ++ packet ∷ [] }

count_received : (now payload_len : ℕ) → WinRx → WinRx
count_received now payload_len s = record s {
  stats = record s.stats {
    rx_packets = add_u64 s.stats.rx_packets 1;
    rx_bytes = add_u64 s.stats.rx_bytes payload_len;
    last_rx_timestamp = now;
  };
}

-- The payload of the length that the header states, if there is so much.
write_frame : (gre_payload : List ℕ) (hdr_len payload_len : ℕ) → WinRx → Result WinRx EoipError
write_frame gre_payload hdr_len payload_len s =
    if ltb 0 payload_len && leb (hdr_len + payload_len) (length gre_payload)
    then slice gre_payload hdr_len (hdr_len + payload_len)
      >>= (λ frame. ok (record s { written = s.written ++ frame ∷ [] }))
    else ok s

rx_decoded :
    (now tid : ℕ) (packet gre_payload : List ℕ)
    → Result (ℕ × ℕ × ℕ) EoipError
    → WinRx
    → Result WinRx EoipError
unfolding reinject count_received write_frame
rx_decoded now tid packet gre_payload panic s = panic
rx_decoded now tid packet gre_payload (err e) s = ok (reinject packet s)
rx_decoded now tid packet gre_payload (ok (id, payload_len, hdr_len)) s =
    if id == tid
    then write_frame gre_payload hdr_len payload_len (count_received now payload_len s)
    else ok (reinject packet s)

-- A packet that WinDivert took out of the stack.
unfoldable pub rx_turn : (now tid : ℕ) → List ℕ → WinRx → Result WinRx EoipError
unfolding rx_decoded
rx_turn now tid packet s = if ltb (length packet) 20 then ok s else (do
  b0 ← index packet 0
  let ip_hdr_len = bit_and b0 0x0F * 4
  if ltb (length packet) (ip_hdr_len + eoip_header_len) then ok s else (do
    gre_payload ← slice_from packet ip_hdr_len
    rx_decoded now tid packet gre_payload (decode_eoip_header gre_payload) s))

-- The loop of reception, over what WinDivert gives, with the time of each packet. It ends at an error.
unfoldable pub rx_loop :
    (tid : ℕ) → List (Result (ℕ × List ℕ) Text) → WinRx → Result WinRx EoipError
rx_loop tid [] s = ok s
rx_loop tid (ok (now, packet) ∷ rest) s = rx_turn now tid packet s >>= rx_loop tid rest
rx_loop tid (err e ∷ rest) s = ok s
rx_loop tid (panic ∷ rest) s = panic

-- What the drivers answer at the start: `some e` is an error with the text `e`. A handle of WinDivert
-- is opened with a filter, at a priority of 0 or -1, which is written without its sign.
pub record WinSystem : Type 0 where
  pub find_tap_guid : Result Text Text
  pub open_tap : (guid : Text) → Option Text
  pub divert : (filter : Text) (below : ℕ) → Option Text

no_error : Option Text → Result (Unit {0}) Text
no_error none = ok tt
no_error (some e) = err e

-- What the start leaves: the registry, the handle behind the pointer 0, and the filter of the packets
-- that are received.
pub record WinStarted (d : DashMap DemuxKey ℕ) : Type 0 where
  pub registry : TunnelRegistry d
  pub handle : TunnelHandle (Unit {0})
  pub filter : Text

peer_text : (show_ip : IpAddr → Text) → IpAddr → Result Text Text
peer_text show_ip (v4 a b c d) = ok (show_ip (v4 a b c d))
peer_text show_ip (v6 bytes) = err (codes "IPv6 not yet supported on Windows")

with_tunnel :
    (d : DashMap DemuxKey ℕ)
    → (IpAddr → Text)
    → WinSystem
    → TunnelConfig
    → Result (WinStarted d) Text
unfolding no_error peer_text transition with_channel_cap Registry.insert Registry.new
with_tunnel d show_ip sys config = do
  guid ← sys.find_tap_guid
  no_error (sys.open_tap guid)
  let new = with_channel_cap config tt
  let key : DemuxKey = record { tunnel_id = config.tunnel_id; peer_addr = config.remote }
  let registry = (Registry.insert d key 0 (Registry.new d)).0
  let cell = (transition (transition new.state initializing configured).0 configured active).0
  remote_ip ← peer_text show_ip config.remote
  let filter = codes "ip.Protocol == 47 and ip.SrcAddr == " ++ remote_ip
  no_error (sys.divert filter 0)
  no_error (sys.divert (codes "ip.Protocol == 47 and outbound") 1)
  ok (record { registry = registry; handle = record new { state = cell }; filter = filter })

-- `run` up to the start of the sending thread, for a configuration that was read.
unfoldable pub run_win :
    (d : DashMap DemuxKey ℕ) → (IpAddr → Text) → WinSystem → Config → Result (WinStarted d) Text
unfolding with_tunnel
run_win d show_ip sys config = elim config.tunnels [
  | [] ↦ err (codes "no tunnels configured")
  | tunnel_cfg ∷ others ↦ with_tunnel d show_ip sys tunnel_cfg
]
