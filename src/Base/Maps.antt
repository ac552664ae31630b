-- ===== src/Base/Maps.antt =====
-- A Go map as an association list: a write replaces the entry of its key, a delete takes it out.
-- Nothing that is modelled depends on the order in which Go iterates over a map.
use mathlib.Core.Path.{◌≡◌, refl}
use mathlib.Core.List.{List, [], ◌∷◌}
use mathlib.Core.Option.{Option, none, some}
use native.Mathlib.Omega.{arith}
use fct.Base.Tests.{Eq, ◌==◌, if◌then◌else◌}

abbrev pub Map {ℓ κ} : Type ℓ → Type κ → Type (ℓ ⊔ κ)
Map K V = List (K × V)

module _ {ℓ κ} {K : Type ℓ} {V : Type κ} ⦃c : Eq K⦄ where
  -- m[key], with `none` for a missing key
  unfoldable pub lookup : K → Map K V → Option V
  lookup key [] = none
  lookup key ((own, val) ∷ rest) = if own == key then some val else lookup key rest

  -- delete(m, key)
  unfoldable pub remove : K → Map K V → Map K V
  remove key [] = []
  remove key ((own, val) ∷ rest) =
      if own == key then remove key rest else (own, val) ∷ remove key rest

  -- m[key] = new
  unfoldable pub insert : K → V → Map K V → Map K V
  insert key new [] = (key, new) ∷ []
  insert key new ((own, val) ∷ rest) =
      if own == key then (key, new) ∷ rest else (own, val) ∷ insert key new rest

  pub lookup-remove :
      (gone at : K) (m : Map K V)
      → lookup at (remove gone m) ≡ (if gone == at then none else lookup at m)
  unfolding lookup remove
  lookup-remove gone at [] = ground arith
  lookup-remove gone at ((own, val) ∷ rest) =
      ground
        (arith, lookup-remove gone at rest, c.decides own at, c.decides own gone, c.decides gone at)

  pub lookup-insert :
      (key at : K) (new : V) (m : Map K V)
      → lookup at (insert key new m) ≡ (if key == at then some new else lookup at m)
  unfolding lookup insert
  lookup-insert key at new [] = refl
  lookup-insert key at new ((own, val) ∷ rest) =
      ground (
        arith,
        lookup-insert key at new rest,
        c.decides own at,
        c.decides own key,
        c.decides key at,
      )
