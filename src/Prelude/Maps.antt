-- ===== src/Prelude/Maps.antt =====
-- A `Map` as the list of its entries, in the order in which the keys were first set.
use mathlib.Core.Path.{◌≡◌, refl}
use mathlib.Core.Bool.{Bool}
use mathlib.Core.List.{List, [], ◌∷◌}
use mathlib.Core.Option
use mathlib.Core.Option.{Option, none, some}
use native.Mathlib.Omega.{arith}
use backend_task_orchestrati.Prelude.Tests.{if◌then◌else◌, is_some}
use backend_task_orchestrati.Prelude.Eq.{Eq, ◌==◌}

module _ {K : Type 0} ⦃e : Eq K⦄ {V : Type 0} where
  unfoldable pub lookup : K → List (K × V) → Option V
  lookup k [] = none
  lookup k ((j, v) ∷ m) = if j == k then some v else lookup k m

  -- `map.set(k, value)`
  unfoldable pub insert : K → V → List (K × V) → List (K × V)
  insert k value [] = (k, value) ∷ []
  insert k value (entry ∷ m) = if entry.0 == k then (k, value) ∷ m else entry ∷ insert k value m

  -- An assignment to the object that the key leads to.
  unfoldable pub modify : K → (V → V) → List (K × V) → List (K × V)
  modify k f [] = []
  modify k f ((j, v) ∷ m) = if j == k then (j, f v) ∷ m else (j, v) ∷ modify k f m

  unfoldable pub remove : K → List (K × V) → List (K × V)
  remove k [] = []
  remove k ((j, v) ∷ m) = if j == k then remove k m else (j, v) ∷ remove k m

  abbrev pub has : K → List (K × V) → Bool
  has k m = is_some (lookup k m)

  pub lookup-insert :
      (k other : K) (value : V) (m : List (K × V))
      → lookup other (insert k value m) ≡ (if k == other then some value else lookup other m)
  unfolding lookup insert
  lookup-insert k other value [] = refl
  lookup-insert k other value ((first, kept) ∷ m) = ground (
    arith,
    e.equal_iff first k,
    e.equal_iff first other,
    e.equal_iff k other,
    lookup-insert k other value m,
  )

  pub lookup-modify :
      (k j : K) (f : V → V) (m : List (K × V))
      → lookup j (modify k f m) ≡ (if k == j then Option.map f (lookup j m) else lookup j m)
  unfolding lookup modify
  lookup-modify k j f [] = ground arith
  lookup-modify k j f ((i, w) ∷ m) =
      ground (arith, e.equal_iff k j, e.equal_iff i k, e.equal_iff i j, lookup-modify k j f m)

  pub lookup-remove :
      (k j : K) (m : List (K × V)) → lookup j (remove k m) ≡ (if k == j then none else lookup j m)
  unfolding lookup remove
  lookup-remove k j [] = ground arith
  lookup-remove k j ((i, w) ∷ m) =
      ground (arith, e.equal_iff k j, e.equal_iff i k, e.equal_iff i j, lookup-remove k j m)
