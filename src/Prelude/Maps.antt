-- ===== src/Prelude/Maps.antt =====
-- Go maps as association lists: `delete` drops every entry of a key, and `insert` deletes first, so
-- that a map built by the operations holds a key once.
use Prim.Native.Nat.{suc, ◌≤◌}
use mathlib.Core.Path.{◌≡◌, refl}
use mathlib.Core.Bool.{Bool, true, false}
use mathlib.Core.Option.{Option, none, some}
use mathlib.Core.List.{List, [], ◌∷◌}
use native.Mathlib.Omega.{arith}
use faro.Prelude.Tests.{if◌then◌else◌}
use faro.Prelude.Equality.{Comparable, ◌==◌}
use faro.Prelude.Lists.{length}

pub beq_refl {ℓ} : {A : Type ℓ} ⦃e : Comparable A⦄ (a : A) → (a == a) ≡ true
beq_refl ⦃e⦄ a = (e.same_iff a a).1 refl

abbrev pub keep_if {ℓ} : {V : Type ℓ} → (V → Bool) → Option V → Option V
keep_if p none = none
keep_if p (some v) = if p v then some v else none

-- `for key, value := range m { if !p(value) { delete(m, key) } }`
abbrev pub retain {ℓ κ} : {K : Type κ} {V : Type ℓ} → (V → Bool) → List (K × V) → List (K × V)
retain p [] = []
retain p ((j, v) ∷ m) = if p v then (j, v) ∷ retain p m else retain p m

module _ {ℓ κ} {K : Type κ} ⦃e : Comparable K⦄ {V : Type ℓ} where
  abbrev pub lookup : K → List (K × V) → Option V
  lookup k [] = none
  lookup k ((j, v) ∷ m) = if j == k then some v else lookup k m

  abbrev pub delete : K → List (K × V) → List (K × V)
  delete k [] = []
  delete k ((j, v) ∷ m) = if j == k then delete k m else (j, v) ∷ delete k m

  abbrev pub insert : K → V → List (K × V) → List (K × V)
  insert k v m = (k, v) ∷ delete k m

  abbrev pub IsFresh : K → List (K × V) → Type 0
  IsFresh k [] = Unit
  IsFresh k ((j, v) ∷ m) = ((j == k) ≡ false) × IsFresh k m

  abbrev pub HasUniqueKeys : List (K × V) → Type 0
  HasUniqueKeys [] = Unit
  HasUniqueKeys ((k, v) ∷ m) = IsFresh k m × HasUniqueKeys m

  pub lookup-delete :
      (k j : K) (m : List (K × V)) → lookup j (delete k m) ≡ (if k == j then none else lookup j m)
  lookup-delete k j [] = ground arith
  lookup-delete k j ((i, v) ∷ m) =
      ground (arith, e.same_iff k j, e.same_iff i k, e.same_iff i j, lookup-delete k j m)

  pub lookup-insert :
      (k j : K) (v : V) (m : List (K × V))
      → lookup j (insert k v m) ≡ (if k == j then some v else lookup j m)
  lookup-insert k j v m = ground (arith, lookup-delete k j m)

  pub lookup_of_IsFresh : (k : K) (m : List (K × V)) → IsFresh k m → lookup k m ≡ none
  lookup_of_IsFresh k [] h = refl
  lookup_of_IsFresh k ((j, v) ∷ m) h = ground (arith, lookup_of_IsFresh k m h.1)

  pub lookup-retain :
      (p : V → Bool) (k : K) (m : List (K × V))
      → HasUniqueKeys m
      → lookup k (retain p m) ≡ keep_if p (lookup k m)
  lookup-retain p k [] u = refl
  lookup-retain p k ((j, v) ∷ m) u =
      ground (arith, e.same_iff j k, lookup-retain p k m u.1, lookup_of_IsFresh j m u.0)

  delete-IsFresh_self : (k : K) (m : List (K × V)) → IsFresh k (delete k m)
  delete-IsFresh_self k [] = tt
  delete-IsFresh_self k ((j, v) ∷ m) = ground (arith, delete-IsFresh_self k m)

  delete-IsFresh : (k j : K) (m : List (K × V)) → IsFresh j m → IsFresh j (delete k m)
  delete-IsFresh k j [] h = tt
  delete-IsFresh k j ((i, v) ∷ m) h = ground (arith, delete-IsFresh k j m h.1)

  retain-IsFresh : (p : V → Bool) (j : K) (m : List (K × V)) → IsFresh j m → IsFresh j (retain p m)
  retain-IsFresh p j [] h = tt
  retain-IsFresh p j ((i, v) ∷ m) h = ground (arith, retain-IsFresh p j m h.1)

  pub delete-HasUniqueKeys :
      (k : K) (m : List (K × V)) → HasUniqueKeys m → HasUniqueKeys (delete k m)
  delete-HasUniqueKeys k [] u = tt
  delete-HasUniqueKeys k ((j, v) ∷ m) u =
      ground (arith, delete-HasUniqueKeys k m u.1, delete-IsFresh k j m u.0)

  pub insert-HasUniqueKeys :
      (k : K) (v : V) (m : List (K × V)) → HasUniqueKeys m → HasUniqueKeys (insert k v m)
  insert-HasUniqueKeys k v m u = (delete-IsFresh_self k m, delete-HasUniqueKeys k m u)

  pub retain-HasUniqueKeys :
      (p : V → Bool) (m : List (K × V)) → HasUniqueKeys m → HasUniqueKeys (retain p m)
  retain-HasUniqueKeys p [] u = tt
  retain-HasUniqueKeys p ((j, v) ∷ m) u =
      ground (arith, retain-HasUniqueKeys p m u.1, retain-IsFresh p j m u.0)

  pub length-delete-le : (k : K) (m : List (K × V)) → length (delete k m) ≤ length m
  length-delete-le k [] = omega arith
  length-delete-le k ((j, v) ∷ m) = ground (arith, length-delete-le k m)

  pub length-delete-lt :
      (k : K) (v : V) (m : List (K × V))
      → lookup k m ≡ some v
      → suc (length (delete k m)) ≤ length m
  length-delete-lt k v [] h = absurd (ground arith)
  length-delete-lt k v ((j, w) ∷ m) h = ground (arith, length-delete-le k m, length-delete-lt k v m)

  pub length-retain-le : (p : V → Bool) (m : List (K × V)) → length (retain p m) ≤ length m
  length-retain-le p [] = omega arith
  length-retain-le p ((j, v) ∷ m) = ground (arith, length-retain-le p m)
