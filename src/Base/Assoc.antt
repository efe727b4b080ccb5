-- ===== src/Base/Assoc.antt =====
-- `HashMap` with numbers as keys: an association list in which a key stands once at most.
use Prim.Native.Nat.{ℕ}
use mathlib.Core.Path.{◌≡◌, refl, ap}
use mathlib.Core.Logic.{inl, inr}
use mathlib.Core.Option.{Option, none, some}
use mathlib.Core.List.{List, [], ◌∷◌}
use native.Mathlib.Omega.{arith}
use eo_ip_rs.Base.Tests.{◌==◌, if◌then◌else◌, Bool-cases}

module _ {ℓ} {V : Type ℓ} where
  abbrev pub map_get : ℕ → List (ℕ × V) → Option V
  map_get k [] = none
  map_get k ((j, v) ∷ m) = if j == k then some v else map_get k m

  abbrev pub map_remove : ℕ → List (ℕ × V) → List (ℕ × V)
  map_remove k [] = []
  map_remove k ((j, v) ∷ m) = let rest = map_remove k m in if j == k then rest else (j, v) ∷ rest

  -- The new entry stands for an old one of its key.
  abbrev pub map_insert : ℕ → V → List (ℕ × V) → List (ℕ × V)
  map_insert k v m = (k, v) ∷ map_remove k m

  pub map_get-map_remove :
      (k j : ℕ) (m : List (ℕ × V))
      → map_get j (map_remove k m) ≡ (if k == j then none else map_get j m)
  map_get-map_remove k j [] = ground arith
  map_get-map_remove k j ((i, v) ∷ m) = ground (arith, map_get-map_remove k j m)

  pub map_get-map_insert :
      (k j : ℕ) (v : V) (m : List (ℕ × V))
      → map_get j (map_insert k v m) ≡ (if k == j then some v else map_get j m)
  map_get-map_insert k j v m = ground (arith, map_get-map_remove k j m)

  pub map_remove_absent : (k : ℕ) (m : List (ℕ × V)) → map_get k m ≡ none → map_remove k m ≡ m
  map_remove_absent k [] h = refl
  map_remove_absent k ((j, v) ∷ m) h = ground (arith, map_remove_absent k m)

  pub map_remove-map_remove :
      (k : ℕ) (m : List (ℕ × V)) → map_remove k (map_remove k m) ≡ map_remove k m
  map_remove-map_remove k [] = refl
  map_remove-map_remove k ((j, v) ∷ m) = elim (Bool-cases (j == k)) [
    | inl same ↦ rw same (map_remove-map_remove k m)
    | inr other ↦ rw other (rw other (ap (λ t. (j, v) ∷ t) (map_remove-map_remove k m)))
  ]
