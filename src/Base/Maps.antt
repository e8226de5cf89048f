-- ===== src/Base/Maps.antt =====
-- Go maps that are filled by a loop and then read: an association list, the latest write first.
use mathlib.Core.Bool.{Bool, true, false}
use mathlib.Core.List.{List, [], ◌∷◌}
use mathlib.Core.Option.{Option, none, some}
use orb_operator.Base.Tests.{Eq, ◌==◌, if◌then◌else◌}

abbrev pub Map {ℓ κ} : Type ℓ → Type κ → Type (ℓ ⊔ κ)
Map K V = List (K × V)

module _ {ℓ κ} {K : Type ℓ} {V : Type κ} ⦃e : Eq K⦄ where
  -- `v, ok := m[k]`
  abbrev pub lookup : Map K V → K → Option V
  lookup [] k = none
  lookup ((j, v) ∷ m) k = if j == k then some v else lookup m k

  -- `m[k] = v`
  abbrev pub insert : K → V → Map K V → Map K V
  insert k v m = (k, v) ∷ m

module _ {ℓ} {K : Type ℓ} ⦃e : Eq K⦄ where
  -- A set, `map[K]struct{}`, as the list of its members.
  abbrev pub contains : List K → K → Bool
  contains [] k = false
  contains (j ∷ s) k = if j == k then true else contains s k
