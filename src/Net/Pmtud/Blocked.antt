-- ===== src/Net/Pmtud/Blocked.antt =====
-- Where discovery does not do what its comments say: a host that answers no probe, and a tunnel under
-- IPsec.
use eo_ip_rs.Base.{Result, ok, err, panic, ℕ, ◌+◌, ◌-◌, ◌≤◌, ◌≡◌, refl, ◌≢◌, ◌⊎◌, true, arith}
use mathlib.Core.Path.{fun_ext}
use eo_ip_rs.Proto.Types.Addr.{IpAddr, v4}
use eo_ip_rs.Config.Mtu.{auto, resolve_with_ipsec}
use eo_ip_rs.Net.Mtu.{Lookup, auto_overlay_mtu, detect_interface_mtu}
use eo_ip_rs.Tunnel.Handle.{TunnelHandle}
use eo_ip_rs.Net.Pmtud.{
  Attempt, timed_out, send_failed, probe_single, works_at, probe_path_mtu, do_pmtud, PmtudError,
}

-- A network that never answers: every attempt times out, or `send` fails with another error.
abbrev pub IsSilent : (ℕ → ℕ → Attempt) → Type 0
IsSilent attempts =
    (size try : ℕ) → (attempts size try ≡ timed_out) ⊎ (attempts size try ≡ send_failed)

silent_works : (attempts : ℕ → ℕ → Attempt) (m : ℕ) → IsSilent attempts → works_at attempts m ≡ true
unfolding works_at probe_single
silent_works attempts m silent =
    ground (arith, silent (4 + (m - 28)) 0, silent (4 + (m - 28)) 1, silent (4 + (m - 28)) 2)

-- Where no probe of any size is answered, discovery over IPv4 returns the largest size, 1500, and
-- never the error that all probes timed out.
pub probe_path_mtu_silent :
    (attempts : ℕ → ℕ → Attempt) (a b c d : ℕ)
    → IsSilent attempts
    → probe_path_mtu (ok tt) attempts (v4 a b c d) ≡ ok 1500
probe_path_mtu_silent attempts a b c d silent =
    let all = λ (m : ℕ). silent_works attempts m silent in
    unfold probe_path_mtu in rw (fun_ext all) refl

-- Where the interface and the path agree on a path MTU of at least 614, discovery sets the overlay MTU
-- of a tunnel 38 bytes above the value that the configuration resolves for it under IPsec.
pub do_pmtud_ignores_ipsec :
    {Sender : Type 0} (lookup : Lookup) (remote : IpAddr) (path_mtu : ℕ) (h : TunnelHandle Sender)
    → lookup remote ≡ ok path_mtu
    → 614 ≤ path_mtu
    → (do_pmtud lookup remote (ok path_mtu) h).actual_mtu
      ≡ resolve_with_ipsec lookup auto remote true + 38
unfolding do_pmtud resolve_with_ipsec auto_overlay_mtu detect_interface_mtu
do_pmtud_ignores_ipsec lookup remote path_mtu h same big = rw same (omega arith)

-- Discovery never leaves a tunnel with an overlay MTU below 534, except one that had another such
-- value before and got an error.
pub do_pmtud_bounds :
    {Sender : Type 0} (lookup : Lookup) (remote : IpAddr) (r : Result ℕ PmtudError)
    (h : TunnelHandle Sender)
    → r ≢ panic
    → (534 ≤ h.actual_mtu) ⊎ (h.actual_mtu ≡ 0)
    → 534 ≤ (do_pmtud lookup remote r h).actual_mtu
unfolding do_pmtud auto_overlay_mtu
do_pmtud_bounds lookup remote (ok path_mtu) h fine before = omega arith
do_pmtud_bounds lookup remote (err e) h fine before = ground arith
do_pmtud_bounds lookup remote panic h fine before = absurd (fine refl)
