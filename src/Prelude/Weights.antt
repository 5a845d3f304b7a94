-- ===== src/Prelude/Weights.antt =====
-- The sum of a weight over a list, and how a write to one position moves it.
use Prim.Native.Nat.{ℕ, zero, suc, ◌+◌}
use mathlib.Core.List.{List, [], ◌∷◌, ◌++◌}
use mathlib.Core.Logic.{◌⊎◌, inl, inr}
use mathlib.Core.Bool.{Bool, true, false}
use mathlib.Core.Option.{some}
use mathlib.Core.Path.{◌≡◌, refl, ap}
use native.Mathlib.Omega.{arith}
use split_synchronizer.Prelude.Lists.{get_elem?, set, All}
use split_synchronizer.Prelude.Tests.{Bool-cases}

module _ {ℓ} {A : Type ℓ} where
  abbrev pub total : (A → ℕ) → List A → ℕ
  total w [] = 0
  total w (x ∷ xs) = w x + total w xs

  pub total-append : (w : A → ℕ) (xs ys : List A) → total w (xs ++ ys) ≡ total w xs + total w ys
  total-append w [] ys = omega arith
  total-append w (x ∷ xs) ys = omega (arith, total-append w xs ys)

  pub total-set :
      (w : A → ℕ) (xs : List A) (i : ℕ) (x y : A)
      → get_elem? xs i ≡ some x
      → total w (set xs i y) + w x ≡ total w xs + w y
  total-set w [] i x y e = cc
  total-set w (z ∷ zs) zero x y e = let same : z ≡ x = cc in omega (arith, ap w same)
  total-set w (z ∷ zs) (suc i) x y e = omega (arith, total-set w zs i x y e)

  -- A position whose element passes a test, where one does.
  pub find_position :
      (test : A → Bool) (xs : List A)
      → ((i : ℕ) × (x : A) × (get_elem? xs i ≡ some x) × (test x ≡ true))
        ⊎ All (λ x. test x ≡ false) xs
  find_position test [] = inr tt
  find_position test (x ∷ xs) = elim (Bool-cases (test x)) [
    | inl t ↦ inl (0, x, refl, t)
    | inr f ↦ elim (find_position test xs) [
      | inl (i, y, e, t) ↦ inl (suc i, y, e, t)
      | inr none_does ↦ inr (f, none_does)
    ]
  ]
