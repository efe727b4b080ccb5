-- ===== src/Net/Pmtud.antt =====
-- crates/eoip-rs/src/net/pmtud.rs: path MTU discovery as Linux does it. The socket's answers to one
-- attempt are a parameter; setting the socket up is one more, which may fail.
pub mod Search
pub mod Blocked
use eo_ip_rs.Base.{
  leb, ◌==◌, if◌then◌else◌, Result, ok, err, panic, ◌>>◌, Text, codes, ℕ, zero, suc, ◌+◌, ◌-◌, ◌/◌,
  max, Bool, true, false, not, Option, none, some,
}
use eo_ip_rs.Proto.Types.Addr.{IpAddr, v4, v6}
use eo_ip_rs.Net.Mtu.{Lookup, eoip_overhead, min_overlay_mtu, auto_overlay_mtu}
use eo_ip_rs.Tunnel.Handle.{TunnelHandle}

abbrev pub min_probe : ℕ
min_probe = 576

abbrev pub max_probe : ℕ
max_probe = 1500

abbrev pub probe_retries : ℕ
probe_retries = 3

pub data PmtudError : Type 0 where
  socket : Text → PmtudError
  all_timed_out : PmtudError
  internal : Text → PmtudError

-- How one send and one receive end: a reply, `EMSGSIZE` from either, another error of `send`, or no
-- reply in time.
pub data Attempt : Type 0 where
  replied too_big send_failed timed_out : Attempt

-- `attempts` is what happens to a buffer of `total` bytes that is sent on the nth try.
probe_from : (ℕ → ℕ → Attempt) → ℕ → ℕ → ℕ → Bool
probe_from attempts total zero attempt = true
probe_from attempts total (suc left) attempt = elim (attempts total attempt) [
  | replied ↦ true
  | too_big ↦ false
  | send_failed ↦ probe_from attempts total left (attempt + 1)
  | timed_out ↦ probe_from attempts total left (attempt + 1)
]

-- The buffer has two bytes for an identifier and two for the attempt's number in front of the payload.
unfoldable pub probe_single : (ℕ → ℕ → Attempt) → ℕ → ℕ → Bool
unfolding probe_from
probe_single attempts payload_size retries = probe_from attempts (4 + payload_size) retries 0

-- The loop `while lo <= hi`, with the probes made so far counted. Each round at least halves the
-- range, and the fuel is the number of rounds that may still follow.
pub search : (ℕ → Bool) → ℕ → (lo hi best probes : ℕ) → Option (ℕ × ℕ)
search works zero lo hi best probes = none
search works (suc fuel) lo hi best probes =
    let mid = lo + (hi - lo) / 2 in
    elim (leb lo hi) [
      | false ↦ some (best, probes)
      | true ↦ elim (works mid) [
        | true ↦ elim (mid == hi) [
          | true ↦ some (mid, probes + 1)
          | false ↦ search works fuel (mid + 1) hi mid (probes + 1)
        ]
        | false ↦ elim (mid == lo) [
          | true ↦ some (best, probes + 1)
          | false ↦ search works fuel lo (mid - 1) best (probes + 1)
        ]
      ]
    ]

-- A probe for the path MTU `mid` has a payload of `mid - 28` bytes.
pub works_at : (ℕ → ℕ → Attempt) → ℕ → Bool
works_at attempts mid = probe_single attempts (mid - 28) probe_retries

judged : ℕ × ℕ → Result ℕ PmtudError
judged (best, probes) = if leb best min_probe then err all_timed_out else ok best

searched : Option (ℕ × ℕ) → Result ℕ PmtudError
unfolding judged
searched (some r) = judged r
searched none = panic

unfoldable pub probe_path_mtu :
    Result (Unit {0}) PmtudError → (ℕ → ℕ → Attempt) → IpAddr → Result ℕ PmtudError
unfolding search works_at searched
probe_path_mtu setup attempts (v6 octets) = err (internal (codes "IPv6 PMTUD not yet implemented"))
probe_path_mtu setup attempts (v4 a b c d) = do
  setup
  searched (search (works_at attempts) 10 min_probe max_probe min_probe 0)

-- `do_pmtud`: the overlay MTU that a probe's result leaves in the handle. Setting the interface's MTU
-- is left to the helper.
unfoldable pub do_pmtud :
    {Sender : Type 0}
    → Lookup
    → IpAddr
    → Result ℕ PmtudError
    → TunnelHandle Sender
    → TunnelHandle Sender
do_pmtud lookup remote (ok path_mtu) h = record h {
  actual_mtu = max (path_mtu - eoip_overhead) min_overlay_mtu;
}
do_pmtud lookup remote (err e) h =
    if h.actual_mtu == 0 then record h { actual_mtu = auto_overlay_mtu lookup remote } else h
do_pmtud lookup remote panic h = h
