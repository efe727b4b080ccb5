-- ===== src/Tunnel/Manager/Destroy/Gone.antt =====
-- What `destroy_tunnel` of crates/eoip-rs/src/tunnel/manager.rs leaves in the registry.
use eo_ip_rs.Base.{
  List-cases, Text, map_get, ℕ, ◌≡◌, refl, sym, ap, ◌∙◌, ◌≢◌, inl, inr, Option, none, some, List,
  [], ◌∷◌,
}
use mathlib.Core.List.{Memᴰ}
use mathlib.Core.List.Memᴰ
use eo_ip_rs.Proto.Types.{DemuxKey, DemuxKey-discrete}
use eo_ip_rs.Proto.Types.Addr.{IpAddr}
use eo_ip_rs.Ipsec.Config.{Vici}
use eo_ip_rs.Ipsec.Manager
use eo_ip_rs.Ipsec.Manager.{IpsecManager, Answers}
use eo_ip_rs.Tunnel.Registry
use eo_ip_rs.Tunnel.Registry.{DashMap, TunnelRegistry}
use eo_ip_rs.Tunnel.Registry.Model.{find_by_tunnel_id_iff}
use eo_ip_rs.Tunnel.Manager.{TunnelManager}
use eo_ip_rs.Tunnel.Manager.Destroy.{cancel_tasks, tear_down, unregister, destroy_tunnel}

-- No entry has the id: the search finds nothing.
pub find-empty :
    {V : Type 0} (d : DashMap DemuxKey V) (id : ℕ) (r : TunnelRegistry d)
    → ((k : DemuxKey) (p : V) → Registry.get d k r ≡ some p → k.tunnel_id ≢ id)
    → Registry.find_by_tunnel_id d id r ≡ []
find-empty d id r absent = elim (List-cases (Registry.find_by_tunnel_id d id r)) [
  | inl none_left ↦ none_left
  | inr ((k, p), rest, found) ↦
      let (known, same) = (find_by_tunnel_id_iff d id k p r).0 (rw found (Memᴰ.head refl)) in
      absurd (absent k p known same)
]

-- A key found after a removal is another one, and was there before.
pub get_after-remove :
    {V : Type 0} (d : DashMap DemuxKey V) (key k : DemuxKey) (p : V) (r : TunnelRegistry d)
    → Registry.get d k (Registry.remove d key r).0 ≡ some p
    → (key ≢ k) × (Registry.get d k r ≡ some p)
unfolding Registry.get Registry.remove
get_after-remove d key k p r found = elim (DemuxKey-discrete key k) [
  | yes same ↦ absurd (cc (d.get-remove_self key r, same, found))
  | no other ↦ (other, sym (d.get-remove_ne key k r other) ∙ found)
]

module _ (Sender : Type 0) (d : DashMap DemuxKey ℕ) (v : Vici) (show_ip : IpAddr → Text) where
  abbrev State : Type 0
  State = TunnelManager Sender d v show_ip

  tear_down-get :
      (es : List (DemuxKey × ℕ)) (s : State) (k : DemuxKey) (p : ℕ)
      → Registry.get d k (tear_down Sender d v show_ip es s).registry ≡ some p
      → (Registry.get d k s.registry ≡ some p) × ((w : ℕ) → ¬ Memᴰ (k, w) es)
  unfolding tear_down
  tear_down-get [] s k p found = (found, λ w m. Memᴰ.not-nil m)
  tear_down-get ((key, q) ∷ es) s k p found =
      let (later, apart) = tear_down-get es _ k p found in
      let (other, before) = get_after-remove d key k p s.registry later in
      (
        before,
        λ w m. elim (Memᴰ.cases_cons m) [
          | inl same ↦ other (sym (ap (λ x. x.0) same))
          | inr m' ↦ apart w m'
        ],
      )

  unregister-get :
      (id : ℕ) (es : List (DemuxKey × ℕ)) (s : State) (k : DemuxKey) (p : ℕ)
      → Registry.get d k (unregister Sender d v show_ip id es s).0.registry ≡ some p
      → (Registry.get d k s.registry ≡ some p) × ((w : ℕ) → ¬ Memᴰ (k, w) es)
  unfolding unregister
  unregister-get id [] s k p found = (found, λ w m. Memᴰ.not-nil m)
  unregister-get id (e ∷ es) s k p found = tear_down-get (e ∷ es) s k p found

  cancel_tasks-registry :
      (id : ℕ) (t : Option ℕ) (s : State)
      → (cancel_tasks Sender d v show_ip id t s).registry ≡ s.registry
  unfolding cancel_tasks
  cancel_tasks-registry id none s = refl
  cancel_tasks-registry id (some t) s = refl

  -- What a call of `destroy_tunnel` leaves in the registry was there before, under another id.
  pub destroy_tunnel-get :
      (answers : Answers v show_ip) (id : ℕ) (s : State) (k : DemuxKey) (p : ℕ)
      → Registry.get d k (destroy_tunnel Sender d v show_ip answers id s).0.registry ≡ some p
      → (Registry.get d k s.registry ≡ some p) × (k.tunnel_id ≢ id)
  unfolding destroy_tunnel
  destroy_tunnel-get answers id s k p found =
      let t : State = record s {
        ipsec = (Manager.teardown_tunnel v show_ip answers id s.ipsec).0;
      } in
      let u = cancel_tasks Sender d v show_ip id (map_get id s.tasks) t in
      let es = Registry.find_by_tunnel_id d id u.registry in
      let (kept, apart) = unregister-get id es u k p found in
      let same_map = ap (Registry.get d k) (cancel_tasks-registry id (map_get id s.tasks) t) in
      (
        sym same_map ∙ kept,
        λ same. apart p ((find_by_tunnel_id_iff d id k p u.registry).1 (kept, same)),
      )

  -- After `destroy_tunnel`, successful or not, the search by the id finds nothing.
  pub find_by_tunnel_id-destroy_tunnel :
      (answers : Answers v show_ip) (id : ℕ) (s : State)
      → Registry.find_by_tunnel_id d id (destroy_tunnel Sender d v show_ip answers id s).0.registry
        ≡ []
  find_by_tunnel_id-destroy_tunnel answers id s =
      find-empty d id _ (λ k p found. (destroy_tunnel-get answers id s k p found).1)
