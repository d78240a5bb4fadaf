-- ===== src/Base/Map.antt =====
-- Go's maps as association lists. `lookup` is `v, ok := m[k]`.
use argocd_operator.Base.Equality.{Eq, ◌==◌, if◌then◌else◌}
use mathlib.Core.Path.{◌≡◌, refl}
use mathlib.Core.Option.{Option, none, some}
use mathlib.Core.List.{List, [], ◌∷◌}
use native.Mathlib.Omega.{arith}

abbrev pub Map {ℓ κ} : Type ℓ → Type κ → Type (ℓ ⊔ κ)
Map K V = List (K × V)

module _ {ℓ κ} {K : Type ℓ} {V : Type κ} ⦃e : Eq K⦄ where
  unfoldable pub lookup : K → Map K V → Option V
  lookup k [] = none
  lookup k ((j, v) ∷ m) = if k == j then some v else lookup k m

  -- `m[k] = v`
  unfoldable pub insert : K → V → Map K V → Map K V
  insert k v [] = (k, v) ∷ []
  insert k v ((j, w) ∷ m) = if k == j then (k, v) ∷ m else (j, w) ∷ insert k v m

  -- `delete(m, k)`
  unfoldable pub erase : K → Map K V → Map K V
  erase k [] = []
  erase k ((j, w) ∷ m) = let rest = erase k m in if k == j then rest else (j, w) ∷ rest

  pub lookup-insert :
      (j k : K) (v : V) (m : Map K V)
      → lookup j (insert k v m) ≡ (if j == k then some v else lookup j m)
  unfolding insert lookup
  lookup-insert j k v [] = ground arith
  lookup-insert j k v (_ ∷ m) = ground (arith, lookup-insert j k v m)

  pub lookup-erase :
      (j k : K) (m : Map K V) → lookup j (erase k m) ≡ (if j == k then none else lookup j m)
  unfolding erase lookup
  lookup-erase j k [] = ground arith
  lookup-erase j k (_ ∷ m) = ground (arith, lookup-erase j k m)

  -- No key stands twice.
  abbrev pub DistinctKeys : Map K V → Type (ℓ ⊔ κ)
  DistinctKeys [] = Unit
  DistinctKeys ((k, v) ∷ m) = (lookup k m ≡ none) × DistinctKeys m

  pub insert-DistinctKeys :
      (k : K) (v : V) (m : Map K V) → DistinctKeys m → DistinctKeys (insert k v m)
  unfolding insert lookup
  insert-DistinctKeys k v [] d = (refl, tt)
  insert-DistinctKeys k v ((j, w) ∷ m) d =
      ground (arith, insert-DistinctKeys k v m, lookup-insert j k v m)

  pub erase-DistinctKeys : (k : K) (m : Map K V) → DistinctKeys m → DistinctKeys (erase k m)
  unfolding erase lookup
  erase-DistinctKeys k [] d = tt
  erase-DistinctKeys k ((j, w) ∷ m) d = ground (arith, erase-DistinctKeys k m, lookup-erase j k m)
