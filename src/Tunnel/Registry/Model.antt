-- ===== src/Tunnel/Registry/Model.antt =====
-- What the registry answers after a change, and which tunnels a search by id finds.
use eo_ip_rs.Base.{
  ◌==◌, ==_iff, Bool-cases, ℕ, ◌≡◌, sym, ap, ◌∙◌, subst, ◌↔◌, inl, inr, some, List, [], ◌∷◌,
}
use mathlib.Core.List.{Memᴰ}
use mathlib.Core.List.Memᴰ
use eo_ip_rs.Proto.Types.{DemuxKey}
use eo_ip_rs.Tunnel.Registry
use eo_ip_rs.Tunnel.Registry.{DashMap, with_id}

module _ {V : Type 0} (d : DashMap DemuxKey V) where
  with_id_sound :
      (tid : ℕ) (key : DemuxKey) (v : V) (es : List (DemuxKey × V))
      → Memᴰ (key, v) (with_id d tid es)
      → Memᴰ (key, v) es × (key.tunnel_id ≡ tid)
  unfolding with_id
  with_id_sound tid key v [] m = absurd (Memᴰ.not-nil m)
  with_id_sound tid key v ((k, w) ∷ es) m = elim (Bool-cases (k.tunnel_id == tid)) [
    | inr other ↦
        let (there, same) = with_id_sound tid key v es (rw other at m) in (Memᴰ.tail there, same)
    | inl hit ↦ elim (Memᴰ.cases_cons (rw hit at m)) [
      | inl e ↦ (Memᴰ.head e, ap (λ x. x.0.tunnel_id) e ∙ (==_iff k.tunnel_id tid).0 hit)
      | inr m' ↦ let (there, same) = with_id_sound tid key v es m' in (Memᴰ.tail there, same)
    ]
  ]

  with_id_complete :
      (key : DemuxKey) (v : V) (es : List (DemuxKey × V))
      → Memᴰ (key, v) es
      → Memᴰ (key, v) (with_id d key.tunnel_id es)
  unfolding with_id
  with_id_complete key v [] m = absurd (Memᴰ.not-nil m)
  with_id_complete key v ((k, w) ∷ es) m = elim (Bool-cases (k.tunnel_id == key.tunnel_id)) [
    | inr other ↦ rw other (elim (Memᴰ.cases_cons m) [
      | inl e ↦
          absurd
            (cc (other, (==_iff k.tunnel_id key.tunnel_id).1 (sym (ap (λ x. x.0.tunnel_id) e))))
      | inr m' ↦ with_id_complete key v es m'
    ])
    | inl hit ↦ rw hit (elim (Memᴰ.cases_cons m) [
      | inl e ↦ Memᴰ.head e
      | inr m' ↦ Memᴰ.tail (with_id_complete key v es m')
    ])
  ]

  -- The search by id finds exactly the registered tunnels that have the id, under whichever peer.
  pub find_by_tunnel_id_iff :
      (tid : ℕ) (key : DemuxKey) (v : V) (r : d.Map)
      → Memᴰ (key, v) (Registry.find_by_tunnel_id d tid r)
        ↔ ((Registry.get d key r ≡ some v) × (key.tunnel_id ≡ tid))
  unfolding Registry.find_by_tunnel_id Registry.get
  find_by_tunnel_id_iff tid key v r = (
    λ m.
        let (there, same) = with_id_sound tid key v (d.entries r) m in
        (d.get-mem key v r there, same),
    λ (known, same).
        subst (λ t. Memᴰ (key, v) (with_id d t (d.entries r))) same
          (with_id_complete key v (d.entries r) (d.mem-get key v r known)),
  )
