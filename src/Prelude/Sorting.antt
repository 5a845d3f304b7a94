-- ===== src/Prelude/Sorting.antt =====
-- `sort.Slice` and `slices.Sort`: a stable insertion sort by a `less` function. Go leaves the order
-- of elements that compare equal open; this is one of the orders it may give.
use Prim.Native.Nat.{ℕ, suc}
use mathlib.Core.Bool.{Bool, true, false}
use mathlib.Core.List.{List, [], ◌∷◌}
use mathlib.Core.Path.{◌≡◌, refl}
use native.Mathlib.Omega.{arith}
use split_synchronizer.Prelude.Lists.{length, All}
use split_synchronizer.Prelude.Tests.{if◌then◌else◌}

module _ {ℓ} {A : Type ℓ} where
  unfoldable pub insert_by : (A → A → Bool) → A → List A → List A
  insert_by less a [] = a ∷ []
  insert_by less a (x ∷ xs) = if less x a then x ∷ insert_by less a xs else a ∷ x ∷ xs

  unfoldable pub sort_slice : (A → A → Bool) → List A → List A
  unfolding insert_by
  sort_slice less [] = []
  sort_slice less (x ∷ xs) = insert_by less x (sort_slice less xs)

  -- No element is less than one before it.
  abbrev pub IsSorted : (A → A → Bool) → List A → Type 0
  IsSorted less [] = Unit
  IsSorted less (x ∷ xs) = All (λ y. less y x ≡ false) xs × IsSorted less xs

  -- How many elements pass a test: two lists with equal counts for every test are permutations.
  unfoldable pub count_if : (A → Bool) → List A → ℕ
  count_if p [] = 0
  count_if p (x ∷ xs) = let n = count_if p xs in if p x then suc n else n

  count_if-insert_by :
      (p : A → Bool) (less : A → A → Bool) (a : A) (xs : List A)
      → count_if p (insert_by less a xs) ≡ count_if p (a ∷ xs)
  unfolding count_if insert_by
  count_if-insert_by p less a [] = refl
  count_if-insert_by p less a (x ∷ xs) = ground (arith, count_if-insert_by p less a xs)

  pub count_if-sort_slice :
      (p : A → Bool) (less : A → A → Bool) (xs : List A)
      → count_if p (sort_slice less xs) ≡ count_if p xs
  unfolding count_if sort_slice
  count_if-sort_slice p less [] = refl
  count_if-sort_slice p less (x ∷ xs) =
      ground
        (arith, count_if-insert_by p less x (sort_slice less xs), count_if-sort_slice p less xs)

  length-insert_by :
      (less : A → A → Bool) (a : A) (xs : List A) → length (insert_by less a xs) ≡ suc (length xs)
  unfolding insert_by
  length-insert_by less a [] = refl
  length-insert_by less a (x ∷ xs) = ground (arith, length-insert_by less a xs)

  pub length-sort_slice :
      (less : A → A → Bool) (xs : List A) → length (sort_slice less xs) ≡ length xs
  unfolding sort_slice
  length-sort_slice less [] = refl
  length-sort_slice less (x ∷ xs) =
      ground (arith, length-insert_by less x (sort_slice less xs), length-sort_slice less xs)

  module _ {κ} (P : A → Type κ) where
    All-insert_by :
        (less : A → A → Bool) (a : A) (xs : List A) → P a → All P xs → All P (insert_by less a xs)
    unfolding insert_by
    All-insert_by less a [] h hs = (h, tt)
    All-insert_by less a (x ∷ xs) h hs = ground (arith, All-insert_by less a xs h hs.1)

    pub All-sort_slice : (less : A → A → Bool) (xs : List A) → All P xs → All P (sort_slice less xs)
    unfolding sort_slice
    All-sort_slice less [] hs = tt
    All-sort_slice less (x ∷ xs) hs = All-insert_by less x _ hs.0 (All-sort_slice less xs hs.1)

-- What a `less` function has to satisfy, as a strict weak order.
pub record StrictWeak {ℓ} {A : Type ℓ} (less : A → A → Bool) : Type ℓ where
  pub asym : (a b : A) → less a b ≡ true → less b a ≡ false
  pub weak : (a b c : A) → less b a ≡ false → less c b ≡ false → less c a ≡ false

module _ {ℓ} {A : Type ℓ} (less : A → A → Bool) (w : StrictWeak less) where
  All-not_below :
      (a b : A) (xs : List A)
      → less b a ≡ false
      → All (λ y. less y b ≡ false) xs
      → All (λ y. less y a ≡ false) xs
  All-not_below a b [] h hs = tt
  All-not_below a b (x ∷ xs) h hs = (w.weak a b x h hs.0, All-not_below a b xs h hs.1)

  insert_by-IsSorted :
      (a : A) (xs : List A) → IsSorted less xs → IsSorted less (insert_by less a xs)
  unfolding insert_by
  insert_by-IsSorted a [] s = (tt, tt)
  insert_by-IsSorted a (x ∷ xs) s = ground (
    arith,
    w.asym x a,
    insert_by-IsSorted a xs s.1,
    All-not_below a x xs,
    All-insert_by (λ y. less y x ≡ false) less a xs,
  )

  pub sort_slice-IsSorted : (xs : List A) → IsSorted less (sort_slice less xs)
  unfolding sort_slice
  sort_slice-IsSorted [] = tt
  sort_slice-IsSorted (x ∷ xs) = insert_by-IsSorted x _ (sort_slice-IsSorted xs)
