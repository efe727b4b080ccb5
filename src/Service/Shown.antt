-- ===== src/Service/Shown.antt =====
-- What the tunnel service shows of a deleted tunnel, crates/eoip-rs/src/api/tunnel_svc.rs.
use eo_ip_rs.Base.{err, as_u16, Text, ℕ, ◌≡◌, refl}
use eo_ip_rs.Proto.Types.{DemuxKey}
use eo_ip_rs.Proto.Types.Addr.{IpAddr}
use eo_ip_rs.Net.Mtu.{Lookup}
use eo_ip_rs.Ipsec.Config.{Vici}
use eo_ip_rs.Ipsec.Manager.{Answers}
use eo_ip_rs.Tunnel.Registry.{DashMap}
use eo_ip_rs.Tunnel.Manager.{TunnelManager}
use eo_ip_rs.Tunnel.Manager.Destroy.Gone.{find_by_tunnel_id-destroy_tunnel}
use eo_ip_rs.Service.{not_found, not_found_text, first_entry, get_tunnel, delete_tunnel}

module _ (Sender : Type 0) (d : DashMap DemuxKey ℕ) (v : Vici) (show_ip : IpAddr → Text) where
  abbrev State : Type 0
  State = TunnelManager Sender d v show_ip

  -- A tunnel that was deleted, or was not there to delete, is not found.
  pub get_tunnel-delete_tunnel :
      (lookup : Lookup) (answers : Answers v show_ip) (tunnel_id : ℕ) (s : State)
      → get_tunnel Sender d v show_ip lookup tunnel_id
          (delete_tunnel Sender d v show_ip answers tunnel_id s).0
        ≡ err (not_found (not_found_text (as_u16 tunnel_id)))
  unfolding get_tunnel delete_tunnel first_entry
  get_tunnel-delete_tunnel lookup answers tunnel_id s =
      rw (find_by_tunnel_id-destroy_tunnel Sender d v show_ip answers (as_u16 tunnel_id) s) refl
