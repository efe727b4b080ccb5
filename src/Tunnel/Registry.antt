-- ===== src/Tunnel/Registry.antt =====
-- crates/eoip-rs/src/tunnel/registry.rs. `DashMap` is a package: its operations, and what its
-- documentation says of them one at a time, are the record below.
pub mod Model
use mathlib.Core.List.{Memᴰ}
use eo_ip_rs.Base.{
  ◌==◌, if◌then◌else◌, length, ℕ, ◌-◌, ◌≡◌, ◌≢◌, Bool, Option, none, some, List, [], ◌∷◌,
}
use eo_ip_rs.Proto.Types.{DemuxKey}

-- A map from `K` to `V`. The iterator yields each entry once.
pub record DashMap (K V : Type 0) : Type 1 where
  pub Map : Type 0
  pub empty : Map
  pub insert : K → V → Map → Map × Option V
  pub remove : K → Map → Map × Option (K × V)
  pub get : K → Map → Option V
  pub entries : Map → List (K × V)
  pub get-empty : (k : K) → get k empty ≡ none
  pub insert_old : (k : K) (v : V) (m : Map) → (insert k v m).1 ≡ get k m
  pub get-insert_self : (k : K) (v : V) (m : Map) → get k (insert k v m).0 ≡ some v
  pub get-insert_ne : (k j : K) (v : V) (m : Map) → k ≢ j → get j (insert k v m).0 ≡ get j m
  pub get-remove_self : (k : K) (m : Map) → get k (remove k m).0 ≡ none
  pub get-remove_ne : (k j : K) (m : Map) → k ≢ j → get j (remove k m).0 ≡ get j m
  pub get-mem : (k : K) (v : V) (m : Map) → Memᴰ (k, v) (entries m) → get k m ≡ some v
  pub mem-get : (k : K) (v : V) (m : Map) → get k m ≡ some v → Memᴰ (k, v) (entries m)

module _ {V : Type 0} (d : DashMap DemuxKey V) where
  abbrev pub TunnelRegistry : Type 0
  TunnelRegistry = d.Map

  unfoldable pub new : TunnelRegistry
  new = d.empty

  unfoldable pub insert : DemuxKey → V → TunnelRegistry → TunnelRegistry × Option V
  insert key handle r = d.insert key handle r

  unfoldable pub remove : DemuxKey → TunnelRegistry → TunnelRegistry × Option (DemuxKey × V)
  remove key r = d.remove key r

  -- `get` clones the pointer, `get_ref` borrows it: both find the same handle.
  unfoldable pub get : DemuxKey → TunnelRegistry → Option V
  get key r = d.get key r

  unfoldable pub len : TunnelRegistry → ℕ
  len r = length (d.entries r)

  unfoldable pub is_empty : TunnelRegistry → Bool
  is_empty r = length (d.entries r) == 0

  with_id : ℕ → List (DemuxKey × V) → List (DemuxKey × V)
  with_id tid [] = []
  with_id tid ((key, handle) ∷ entries) =
      let rest = with_id tid entries in if key.tunnel_id == tid then (key, handle) ∷ rest else rest

  unfoldable pub find_by_tunnel_id : ℕ → TunnelRegistry → List (DemuxKey × V)
  unfolding with_id
  find_by_tunnel_id tid r = with_id tid (d.entries r)
