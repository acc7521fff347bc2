-- ===== src/Prelude/Dict.antt =====
-- A Python dict as an association list in insertion order, over any key type with an equality.
use mathlib.Core.Path.{◌≡◌, refl}
use mathlib.Core.Bool.{Bool}
use mathlib.Core.Option.{Option, none, some}
use mathlib.Core.List.{List, [], ◌∷◌, ◌++◌}
use native.Mathlib.Omega.{arith}
use the_grid.Prelude.Tests.{if◌then◌else◌, Eq, ◌==◌}

module _ {ℓ κ} {K : Type ℓ} {V : Type κ} ⦃e : Eq K⦄ where
  -- `d.get(k)`
  unfoldable pub lookup : K → List (K × V) → Option V
  lookup k [] = none
  lookup k ((j, v) ∷ d) = if j == k then some v else lookup k d

  -- `d[k] = v`: a present key keeps its place, a new one goes to the end.
  unfoldable pub insert : K → V → List (K × V) → List (K × V)
  insert k v [] = (k, v) ∷ []
  insert k v ((j, w) ∷ d) = let rest = insert k v d in if j == k then (j, v) ∷ d else (j, w) ∷ rest

  -- `d.pop(k, None)`
  unfoldable pub remove : K → List (K × V) → List (K × V)
  remove k [] = []
  remove k ((j, v) ∷ d) = let rest = remove k d in if j == k then rest else (j, v) ∷ rest

  -- A loop over `list(d.items())` that deletes the entries that fail the test.
  unfoldable pub retain : (K → V → Bool) → List (K × V) → List (K × V)
  retain p [] = []
  retain p ((j, v) ∷ d) = let rest = retain p d in if p j v then (j, v) ∷ rest else rest

  pub lookup-insert :
      (k j : K) (v : V) (d : List (K × V))
      → lookup j (insert k v d) ≡ (if k == j then some v else lookup j d)
  unfolding lookup insert
  lookup-insert k j v [] = refl
  lookup-insert k j v ((i, w) ∷ d) =
      ground (arith, e.beq_iff k j, e.beq_iff i k, e.beq_iff i j, lookup-insert k j v d)

  pub lookup-remove :
      (k j : K) (d : List (K × V)) → lookup j (remove k d) ≡ (if k == j then none else lookup j d)
  unfolding lookup remove
  lookup-remove k j [] = ground arith
  lookup-remove k j ((i, w) ∷ d) =
      ground (arith, e.beq_iff k j, e.beq_iff i k, e.beq_iff i j, lookup-remove k j d)

  pub lookup-insert_self : (k : K) (v : V) (d : List (K × V)) → lookup k (insert k v d) ≡ some v
  lookup-insert_self k v d = ground (arith, lookup-insert k k v d, e.beq_iff k k)

  pub lookup-remove_self : (k : K) (d : List (K × V)) → lookup k (remove k d) ≡ none
  lookup-remove_self k d = ground (arith, lookup-remove k k d, e.beq_iff k k)

  -- A row that is added under the others is found only if no other has its key.
  pub lookup-append :
      (k j : K) (v : V) (d : List (K × V))
      → lookup j (d ++ (k, v) ∷ [])
        ≡ elim (lookup j d) [ some w ↦ some w | none ↦ if k == j then some v else none ]
  unfolding lookup
  lookup-append k j v [] = refl
  lookup-append k j v ((i, w) ∷ d) = ground (arith, lookup-append k j v d)

  -- Every key once, as under a primary key.
  abbrev pub HasUniqueKeys : List (K × V) → Type κ
  HasUniqueKeys [] = Unit
  HasUniqueKeys ((k, v) ∷ d) = (lookup k d ≡ none) × HasUniqueKeys d

  pub lookup-retain_absent :
      (p : K → V → Bool) (k : K) (d : List (K × V))
      → lookup k d ≡ none
      → lookup k (retain p d) ≡ none
  unfolding lookup retain
  lookup-retain_absent p k [] h = refl
  lookup-retain_absent p k ((j, v) ∷ d) h = ground (arith, lookup-retain_absent p k d)

  -- An entry that passes the test stays, and one that fails it is gone.
  pub lookup-retain :
      (p : K → V → Bool) (k : K) (d : List (K × V))
      → HasUniqueKeys d
      → lookup k (retain p d)
        ≡ elim (lookup k d) [ none ↦ none | some v ↦ if p k v then some v else none ]
  unfolding lookup retain
  lookup-retain p k [] u = refl
  lookup-retain p k ((j, v) ∷ d) u =
      ground (arith, lookup-retain p k d u.1, lookup-retain_absent p j d u.0, e.beq_iff j k)

  pub retain-HasUniqueKeys :
      (p : K → V → Bool) (d : List (K × V)) → HasUniqueKeys d → HasUniqueKeys (retain p d)
  unfolding retain
  retain-HasUniqueKeys p [] u = tt
  retain-HasUniqueKeys p ((j, v) ∷ d) u =
      ground (arith, retain-HasUniqueKeys p d u.1, lookup-retain_absent p j d u.0)

  pub insert-HasUniqueKeys :
      (k : K) (v : V) (d : List (K × V)) → HasUniqueKeys d → HasUniqueKeys (insert k v d)
  unfolding insert lookup
  insert-HasUniqueKeys k v [] u = (refl, tt)
  insert-HasUniqueKeys k v ((j, w) ∷ d) u =
      ground
        (arith, insert-HasUniqueKeys k v d u.1, lookup-insert k j v d, e.beq_iff k j, e.beq_iff j k)

  pub remove-HasUniqueKeys :
      (k : K) (d : List (K × V)) → HasUniqueKeys d → HasUniqueKeys (remove k d)
  unfolding remove
  remove-HasUniqueKeys k [] u = tt
  remove-HasUniqueKeys k ((j, w) ∷ d) u =
      ground (arith, remove-HasUniqueKeys k d u.1, lookup-remove k j d)
