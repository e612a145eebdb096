-- ===== src/Prelude/Dict.antt =====
-- Go maps as association lists. A loop over a map visits the list in its order, which stands for
-- whatever order the runtime picks; the theorems hold for every order.
use mathlib.Core.Path.{◌≡◌, refl}
use mathlib.Core.Bool.{Bool}
use mathlib.Core.Option.{Option, none, some}
use mathlib.Core.List.{List, [], ◌∷◌}
use native.Mathlib.Omega.{arith}
use goupter.Prelude.Tests.{if◌then◌else◌}
use goupter.Prelude.Classes.{Key, ◌==◌}

module _ {ℓ κ} {K : Type ℓ} ⦃eq : Key K⦄ {V : Type κ} where
  -- `v, ok := m[k]`
  unfoldable pub lookup : K → List (K × V) → Option V
  lookup key [] = none
  lookup key (entry ∷ rest) = if entry.0 == key then some entry.1 else lookup key rest

  -- `m[k] = v`
  unfoldable pub insert : K → V → List (K × V) → List (K × V)
  insert key value [] = (key, value) ∷ []
  insert key value (entry ∷ rest) =
      if entry.0 == key then (key, value) ∷ rest else entry ∷ insert key value rest

  -- `delete(m, k)`
  unfoldable pub delete : K → List (K × V) → List (K × V)
  delete k [] = []
  delete k ((j, w) ∷ m) = if j == k then delete k m else (j, w) ∷ delete k m

  -- `for k, v := range m { if p(k, v) { delete(m, k) } }`
  unfoldable pub delete_if : (K → V → Bool) → List (K × V) → List (K × V)
  delete_if p [] = []
  delete_if p ((j, w) ∷ m) = if p j w then delete_if p m else (j, w) ∷ delete_if p m

  -- No key twice: what every Go map satisfies.
  abbrev pub Distinct : List (K × V) → Type κ
  Distinct [] = Unit
  Distinct ((j, w) ∷ m) = (lookup j m ≡ none) × Distinct m

  pub lookup-insert :
      (key other : K) (value : V) (entries : List (K × V))
      → lookup other (insert key value entries)
        ≡ (if key == other then some value else lookup other entries)
  unfolding lookup insert
  lookup-insert key other value [] = refl
  lookup-insert key other value (entry ∷ rest) = ground (
    arith,
    eq.same_iff key other,
    lookup-insert key other value rest,
    eq.same_iff entry.0 key,
    eq.same_iff entry.0 other,
  )

  pub lookup-delete :
      (k j : K) (m : List (K × V)) → lookup j (delete k m) ≡ (if k == j then none else lookup j m)
  unfolding lookup delete
  lookup-delete k j [] = ground arith
  lookup-delete k j ((i, w) ∷ m) =
      ground (arith, eq.same_iff k j, eq.same_iff i k, eq.same_iff i j, lookup-delete k j m)

  abbrev pub kept : (K → V → Bool) → K → Option V → Option V
  kept p k none = none
  kept p k (some v) = if p k v then none else some v

  lookup-delete_if_absent :
      (p : K → V → Bool) (k : K) (m : List (K × V))
      → lookup k m ≡ none
      → lookup k (delete_if p m) ≡ none
  unfolding lookup delete_if
  lookup-delete_if_absent p k [] h = refl
  lookup-delete_if_absent p k ((j, w) ∷ m) h = ground (arith, lookup-delete_if_absent p k m)

  pub lookup-delete_if :
      (p : K → V → Bool) (k : K) (m : List (K × V))
      → Distinct m
      → lookup k (delete_if p m) ≡ kept p k (lookup k m)
  unfolding lookup delete_if
  lookup-delete_if p k [] d = refl
  lookup-delete_if p k ((j, w) ∷ m) d =
      ground (arith, eq.same_iff j k, lookup-delete_if p k m d.1, lookup-delete_if_absent p k m)

  pub insert-Distinct : (k : K) (v : V) (m : List (K × V)) → Distinct m → Distinct (insert k v m)
  unfolding lookup insert
  insert-Distinct k v [] d = (refl, tt)
  insert-Distinct k v ((j, w) ∷ m) d =
      ground
        (arith, eq.same_iff j k, eq.same_iff k j, insert-Distinct k v m d.1, lookup-insert k j v m)

  pub delete-Distinct : (k : K) (m : List (K × V)) → Distinct m → Distinct (delete k m)
  unfolding lookup delete
  delete-Distinct k [] d = tt
  delete-Distinct k ((j, w) ∷ m) d = ground (arith, delete-Distinct k m d.1, lookup-delete k j m)

  pub delete_if-Distinct :
      (p : K → V → Bool) (m : List (K × V)) → Distinct m → Distinct (delete_if p m)
  unfolding lookup delete_if
  delete_if-Distinct p [] d = tt
  delete_if-Distinct p ((j, w) ∷ m) d =
      ground (arith, delete_if-Distinct p m d.1, lookup-delete_if_absent p j m)

  pub lookup-insert_self : (k : K) (v : V) (m : List (K × V)) → lookup k (insert k v m) ≡ some v
  lookup-insert_self k v m = ground (arith, lookup-insert k k v m, eq.same_iff k k)
