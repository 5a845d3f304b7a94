-- ===== src/Prelude/Membership.antt =====
-- Membership in sorted slices.
use mathlib.Core.Bool.{Bool}
use mathlib.Core.List.{List, [], ◌∷◌}
use mathlib.Core.Path.{◌≡◌, refl}
use native.Mathlib.Omega.{arith}
use split_synchronizer.Prelude.Keys.{Eq, contains}
use split_synchronizer.Prelude.Sorting.{insert_by, sort_slice}

module _ {ℓ} {A : Type ℓ} ⦃e : Eq A⦄ (less : A → A → Bool) where
  pub contains-insert_by :
      (k a : A) (xs : List A) → contains k (insert_by less a xs) ≡ contains k (a ∷ xs)
  unfolding contains insert_by
  contains-insert_by k a [] = refl
  contains-insert_by k a (x ∷ xs) = ground (arith, contains-insert_by k a xs)

  pub contains-sort_slice : (k : A) (xs : List A) → contains k (sort_slice less xs) ≡ contains k xs
  unfolding contains sort_slice
  contains-sort_slice k [] = refl
  contains-sort_slice k (x ∷ xs) =
      ground (arith, contains-insert_by k x (sort_slice less xs), contains-sort_slice k xs)
