-- ===== src/Ipsec/Manager/Calls.antt =====
-- The calls that a tunnel's setup and teardown make, and what the table of tunnels keeps.
use eo_ip_rs.Base.{
  ok, err, Text, codes, map_get, map_remove, map_insert, map_remove-map_remove, ◌≡◌, refl, true,
  none, some, List, [], ◌∷◌, ◌++◌, append_assoc, arith,
}
use eo_ip_rs.Proto.Types.Addr.{IpAddr}
use eo_ip_rs.Ipsec.Config.{
  Vici, IpsecTunnelConfig, to_vici_connection, to_vici_shared_secret, to_vici_initiate,
  to_vici_terminate, to_vici_unload,
}
use eo_ip_rs.Ipsec.Manager.{
  IpsecManager, Answers, call, initiate_loaded, after_load_conn, after_load_shared, setup_tunnel,
  teardown, teardown_tunnel, terminate,
}

module _ (v : Vici) (show_ip : IpAddr → Text) where
  -- The commands of a whole life of a tunnel, with its messages.
  abbrev pub life_calls : IpsecTunnelConfig → List (Text × v.Message)
  life_calls cfg =
      (codes "load-shared", to_vici_shared_secret v show_ip cfg)
      ∷ (codes "load-conn", to_vici_connection v show_ip cfg)
      ∷ (codes "initiate", to_vici_initiate v show_ip cfg)
      ∷ (codes "terminate", to_vici_terminate v show_ip cfg)
      ∷ (codes "unload-conn", to_vici_unload v show_ip cfg)
      ∷ []

  -- A setup that succeeds enters the tunnel and has made three calls.
  setup-ok :
      (answers : Answers v show_ip) (cfg : IpsecTunnelConfig) (s : IpsecManager v show_ip)
      → (setup_tunnel v show_ip answers cfg.tunnel_id cfg.local_addr cfg.remote_addr cfg.secret s).1
        ≡ ok tt
      → (setup_tunnel v show_ip answers cfg.tunnel_id cfg.local_addr cfg.remote_addr cfg.secret s).0
        ≡ record {
          connected = true;
          tunnels = map_insert cfg.tunnel_id cfg s.tunnels;
          calls =
              ((s.calls ++ (codes "load-shared", to_vici_shared_secret v show_ip cfg) ∷ [])
                ++ (codes "load-conn", to_vici_connection v show_ip cfg) ∷ [])
              ++ (codes "initiate", to_vici_initiate v show_ip cfg) ∷ [];
        }
  unfolding setup_tunnel after_load_shared call after_load_conn initiate_loaded
  setup-ok answers cfg s = ground arith

  -- A setup that fails leaves the table as it was.
  setup-err :
      (answers : Answers v show_ip) (cfg : IpsecTunnelConfig) (s : IpsecManager v show_ip)
      (e : Text)
      → (setup_tunnel v show_ip answers cfg.tunnel_id cfg.local_addr cfg.remote_addr cfg.secret s).1
        ≡ err e
      → (setup_tunnel v show_ip answers cfg.tunnel_id cfg.local_addr cfg.remote_addr cfg.secret
          s).0.tunnels
        ≡ s.tunnels
  unfolding setup_tunnel after_load_shared call after_load_conn initiate_loaded
  setup-err answers cfg s e = ground arith

  -- Once the setup of a tunnel has succeeded, its teardown makes the rest of the calls of its life, in
  -- this order and whatever strongSwan answers, and takes its entry, and any older one of its
  -- number, from the table.
  pub teardown_tunnel-setup_tunnel :
      (answers later : Answers v show_ip) (cfg : IpsecTunnelConfig) (s : IpsecManager v show_ip)
      → (setup_tunnel v show_ip answers cfg.tunnel_id cfg.local_addr cfg.remote_addr cfg.secret s).1
        ≡ ok tt
      → teardown_tunnel v show_ip later cfg.tunnel_id
          (setup_tunnel v show_ip answers cfg.tunnel_id cfg.local_addr cfg.remote_addr cfg.secret
            s).0
        ≡ (
          record {
            connected = true;
            tunnels = map_remove cfg.tunnel_id s.tunnels;
            calls = s.calls ++ life_calls cfg;
          },
          ok tt,
        )
  unfolding teardown_tunnel teardown terminate call
  teardown_tunnel-setup_tunnel answers later cfg s done =
      let id = cfg.tunnel_id in
      let found : (map_get id (map_insert id cfg s.tunnels) ≡ some cfg) = ground arith in
      let gone : (map_remove id (map_insert id cfg s.tunnels) ≡ map_remove id s.tunnels) =
        ground (arith, map_remove-map_remove id s.tunnels) in
      rw (setup-ok answers cfg s done, found, gone) (simp append_assoc)

  -- After a setup that failed, a teardown of a tunnel that had no entry makes no call.
  pub teardown_tunnel-failed_setup :
      (answers later : Answers v show_ip) (cfg : IpsecTunnelConfig) (s : IpsecManager v show_ip)
      (e : Text)
      → map_get cfg.tunnel_id s.tunnels ≡ none
      → (setup_tunnel v show_ip answers cfg.tunnel_id cfg.local_addr cfg.remote_addr cfg.secret s).1
        ≡ err e
      → (teardown_tunnel v show_ip later cfg.tunnel_id
          (setup_tunnel v show_ip answers cfg.tunnel_id cfg.local_addr cfg.remote_addr cfg.secret
            s).0).0
        ≡ (setup_tunnel v show_ip answers cfg.tunnel_id cfg.local_addr cfg.remote_addr cfg.secret
            s).0
  unfolding teardown_tunnel teardown
  teardown_tunnel-failed_setup answers later cfg s e absent failed =
      rw (setup-err answers cfg s e failed, absent) refl
