-- ===== src/Prelude/Map.antt =====
-- Go's `map[K]V` as an association list: reads, writes and deletions by key. The order in which a
-- map is iterated over is not modelled.
use mathlib.Core.Path.{◌≡◌, refl}
use mathlib.Core.Option.{Option, none, some}
use mathlib.Core.List.{List, [], ◌∷◌}
use native.Mathlib.Omega.{arith}
use irmago.Prelude.Tests.{Eq, ◌==◌, if◌then◌else◌}

module _ {ℓ κ} {K : Type ℓ} {V : Type κ} ⦃e : Eq K⦄ where
  unfoldable pub lookup : K → List (K × V) → Option V
  lookup key [] = none
  lookup key ((other, value) ∷ rest) = if other == key then some value else lookup key rest

  unfoldable pub insert : K → V → List (K × V) → List (K × V)
  insert key value [] = (key, value) ∷ []
  insert key value ((other, kept) ∷ rest) =
      if other == key then (key, value) ∷ rest else (other, kept) ∷ insert key value rest

  unfoldable pub delete : K → List (K × V) → List (K × V)
  delete key [] = []
  delete key ((other, kept) ∷ rest) =
      let others = delete key rest in if other == key then others else (other, kept) ∷ others

  pub lookup-insert :
      (key other : K) (value : V) (rest : List (K × V))
      → lookup other (insert key value rest)
        ≡ (if key == other then some value else lookup other rest)
  unfolding lookup insert
  lookup-insert key other value [] = refl
  lookup-insert key other value ((i, kept) ∷ rest) = ground (
    arith,
    e.decides key other,
    e.decides i key,
    e.decides i other,
    lookup-insert key other value rest,
  )

  pub lookup-delete :
      (key other : K) (rest : List (K × V))
      → lookup other (delete key rest) ≡ (if key == other then none else lookup other rest)
  unfolding lookup delete
  lookup-delete key other [] = ground arith
  lookup-delete key other ((i, kept) ∷ rest) =
      ground (
        arith,
        e.decides key other,
        e.decides i key,
        e.decides i other,
        lookup-delete key other rest,
      )

pub ruleset map_laws = (lookup-insert, lookup-delete)
