-- ===== src/Ipsec/Config.antt =====
-- crates/eoip-rs/src/ipsec/config.rs. `rustici::Message` is a package: its builder is the record
-- below. `show_ip` is the text form of an address.
use eo_ip_rs.Base.{Text, codes, show_nat, ℕ, List, [], ◌∷◌, ◌++◌}
use eo_ip_rs.Proto.Types.Addr.{IpAddr}

pub record Vici : Type 1 where
  pub Message : Type 0
  pub new : Message
  pub section_start : Text → Message → Message
  pub section_end : Message → Message
  pub kv_str : Text → Text → Message → Message
  pub kv_bytes : Text → Text → Message → Message
  pub list_start : Text → Message → Message
  pub list_item_str : Text → Message → Message
  pub list_end : Message → Message

pub record IpsecTunnelConfig : Type 0 where
  pub tunnel_id : ℕ
  pub local_addr : IpAddr
  pub remote_addr : IpAddr
  pub secret : Text

unfoldable pub conn_name : IpsecTunnelConfig → Text
conn_name c = codes "eoip-" ++ show_nat c.tunnel_id

unfoldable pub child_name : IpsecTunnelConfig → Text
child_name c = codes "eoip-" ++ (show_nat c.tunnel_id ++ codes "-gre")

module _ (v : Vici) (show_ip : IpAddr → Text) where
  list_items : List Text → v.Message → v.Message
  list_items [] m = m
  list_items (item ∷ rest) m = list_items rest (v.list_item_str item m)

  -- `list_start`, the items, `list_end`.
  list : Text → List Text → v.Message → v.Message
  unfolding list_items
  list name items m = v.list_end (list_items items (v.list_start name m))

  abbrev traffic : Text → Text
  traffic addr = addr ++ codes "[gre]"

  -- The addresses and the IKE proposals.
  phase_one : Text → Text → v.Message → v.Message
  unfolding list
  phase_one local remote m =
      let m = v.kv_str (codes "version") (codes "1") m in
      let m = list (codes "local_addrs") (local ∷ []) m in
      let m = list (codes "remote_addrs") (remote ∷ []) m in
      let m =
        list (codes "proposals")
          (codes "aes128-sha1-modp2048"
            ∷ codes "aes128-sha1-modp1024"
            ∷ codes "3des-sha1-modp2048"
            ∷ codes "3des-sha1-modp1024"
            ∷ [])
          m in
      let m = v.kv_str (codes "dpd_delay") (codes "8s") m in
      v.kv_str (codes "rekey_time") (codes "24h") m

  auth : Text → Text → v.Message → v.Message
  auth section id m =
      let m = v.section_start section m in
      let m = v.kv_str (codes "auth") (codes "psk") m in
      let m = v.kv_str (codes "id") id m in v.section_end m

  -- The child with its ESP proposals and its traffic selectors.
  phase_two : Text → Text → Text → v.Message → v.Message
  unfolding list
  phase_two child local remote m =
      let m = v.section_start (codes "children") m in
      let m = v.section_start child m in
      let m = v.kv_str (codes "mode") (codes "transport") m in
      let m =
        list (codes "esp_proposals")
          (codes "aes256-sha1-modp1024"
            ∷ codes "aes192-sha1-modp1024"
            ∷ codes "aes128-sha1-modp1024"
            ∷ [])
          m in
      let m = v.kv_str (codes "rekey_time") (codes "30m") m in
      let m = list (codes "local_ts") (traffic local ∷ []) m in
      let m = list (codes "remote_ts") (traffic remote ∷ []) m in
      let m = v.kv_str (codes "replay_window") (codes "128") m in
      let m = v.kv_str (codes "start_action") (codes "start") m in
      let m = v.kv_str (codes "dpd_action") (codes "restart") m in v.section_end (v.section_end m)

  unfoldable pub to_vici_connection : IpsecTunnelConfig → v.Message
  unfolding phase_one auth phase_two conn_name child_name
  to_vici_connection c =
      let local = show_ip c.local_addr in
      let remote = show_ip c.remote_addr in
      let m = v.section_start (conn_name c) v.new in
      let m = phase_one local remote m in
      let m = auth (codes "local-1") local m in
      let m = auth (codes "remote-1") remote m in
      let m = phase_two (child_name c) local remote m in v.section_end m

  unfoldable pub to_vici_shared_secret : IpsecTunnelConfig → v.Message
  unfolding list
  to_vici_shared_secret c =
      let m = v.kv_str (codes "id") (codes "eoip-psk-" ++ show_nat c.tunnel_id) v.new in
      let m = v.kv_str (codes "type") (codes "IKE") m in
      let m = v.kv_bytes (codes "data") c.secret m in
      list (codes "owners") (show_ip c.local_addr ∷ show_ip c.remote_addr ∷ []) m

  unfoldable pub to_vici_initiate : IpsecTunnelConfig → v.Message
  unfolding conn_name child_name
  to_vici_initiate c =
      v.kv_str (codes "ike") (conn_name c) (v.kv_str (codes "child") (child_name c) v.new)

  unfoldable pub to_vici_terminate : IpsecTunnelConfig → v.Message
  unfolding conn_name child_name
  to_vici_terminate c =
      v.kv_str (codes "ike") (conn_name c) (v.kv_str (codes "child") (child_name c) v.new)

  unfoldable pub to_vici_unload : IpsecTunnelConfig → v.Message
  unfolding conn_name
  to_vici_unload c = v.kv_str (codes "name") (conn_name c) v.new
