-- ===== src/Prelude/GoMap.antt =====
-- Go's maps, as association lists in the order of first insertion. `delete` drops every entry of a
-- key, so its law needs no hypothesis; a map that the code builds has each key once (`Distinct`).
use Prim.Native.Nat.{suc}
use mathlib.Core.List.{List, [], ◌∷◌}
use mathlib.Core.Option.{Option, none, some}
use mathlib.Core.Path.{◌≡◌, refl}
use native.Mathlib.Omega.{arith}
use split_synchronizer.Prelude.Keys.{Eq, ◌==◌}
use split_synchronizer.Prelude.Lists.{length}
use split_synchronizer.Prelude.Tests.{if◌then◌else◌}

abbrev pub GoMap {ℓ} : Type ℓ → Type ℓ → Type ℓ
GoMap K V = List (K × V)

module _ {ℓ} {K V : Type ℓ} ⦃e : Eq K⦄ where
  -- `v, ok := m[k]`
  unfoldable pub lookup : K → GoMap K V → Option V
  lookup k [] = none
  lookup k ((j, v) ∷ m) = if j == k then some v else lookup k m

  -- `m[k] = v`
  unfoldable pub store : K → V → GoMap K V → GoMap K V
  store k v [] = (k, v) ∷ []
  store k v ((j, w) ∷ m) = if j == k then (j, v) ∷ m else (j, w) ∷ store k v m

  -- `delete(m, k)`
  unfoldable pub delete : K → GoMap K V → GoMap K V
  delete k [] = []
  delete k ((j, w) ∷ m) = let rest = delete k m in if j == k then rest else (j, w) ∷ rest

  pub lookup-store :
      (k j : K) (v : V) (m : GoMap K V)
      → lookup j (store k v m) ≡ (if k == j then some v else lookup j m)
  unfolding lookup store
  lookup-store k j v [] = refl
  lookup-store k j v ((i, w) ∷ m) =
      ground (arith, e.same_iff k j, e.same_iff i k, e.same_iff i j, lookup-store k j v m)

  pub lookup-delete :
      (k j : K) (m : GoMap K V) → lookup j (delete k m) ≡ (if k == j then none else lookup j m)
  unfolding lookup delete
  lookup-delete k j [] = ground arith
  lookup-delete k j ((i, w) ∷ m) =
      ground (arith, e.same_iff k j, e.same_iff i k, e.same_iff i j, lookup-delete k j m)

  -- No key stands twice, so that the length of the list is `len(m)`.
  abbrev pub Distinct : GoMap K V → Type ℓ
  Distinct [] = Unit
  Distinct ((k, v) ∷ m) = (lookup k m ≡ none) × Distinct m

  -- What a later entry holds is found, since no key stands twice.
  pub lookup_later :
      (j k : K) (w v : V) (m : GoMap K V)
      → Distinct ((j, w) ∷ m)
      → lookup k m ≡ some v
      → lookup k ((j, w) ∷ m) ≡ some v
  unfolding lookup
  lookup_later j k w v m d h = ground (arith, e.same_iff j k)

  pub store-Distinct : (k : K) (v : V) (m : GoMap K V) → Distinct m → Distinct (store k v m)
  unfolding lookup store
  store-Distinct k v [] d = (refl, tt)
  store-Distinct k v ((j, w) ∷ m) d =
      ground (arith, lookup-store k j v m, store-Distinct k v m d.1, e.same_iff j k, e.same_iff k j)

  pub delete-Distinct : (k : K) (m : GoMap K V) → Distinct m → Distinct (delete k m)
  unfolding lookup delete
  delete-Distinct k [] d = tt
  delete-Distinct k ((j, w) ∷ m) d = ground (arith, lookup-delete k j m, delete-Distinct k m d.1)

  pub length-store :
      (k : K) (v : V) (m : GoMap K V)
      → length (store k v m) ≡ elim (lookup k m) [ none ↦ suc (length m) | some _ ↦ length m ]
  unfolding lookup store
  length-store k v [] = refl
  length-store k v ((j, w) ∷ m) = ground (arith, length-store k v m)
