-- ===== src/Prelude/Named.antt =====
-- Slices of named items: the first item with a name, and what sorting keeps of it.
use mathlib.Core.Bool.{Bool}
use mathlib.Core.List.{List, [], ◌∷◌, ◌++◌}
use mathlib.Core.Option.{Option, none, some}
use mathlib.Core.Path.{◌≡◌, refl}
use native.Mathlib.Omega.{arith}
use split_synchronizer.Prelude.Int.{ℤ, ltb_ℤ}
use split_synchronizer.Prelude.Keys.{◌==◌}
use split_synchronizer.Prelude.Lists.{All, select}
use split_synchronizer.Prelude.Sorting.{insert_by, sort_slice, StrictWeak}
use split_synchronizer.Prelude.Str.{Str, str_lt, str_beq_iff, str_eq, str_lt_asym, str_lt_weak}
use split_synchronizer.Prelude.Tests.{if◌then◌else◌, Bool-cases}
use mathlib.Core.Logic.{inl, inr}

module _ {ℓ} {A : Type ℓ} (name : A → Str) where
  unfoldable pub find_by : Str → List A → Option A
  find_by n [] = none
  find_by n (x ∷ xs) = if name x == n then some x else find_by n xs

  -- No two items share a name.
  abbrev pub DistinctBy : List A → Type ℓ
  DistinctBy [] = Unit
  DistinctBy (x ∷ xs) = (find_by (name x) xs ≡ none) × DistinctBy xs

  pub find_by-append :
      (n : Str) (xs ys : List A)
      → find_by n (xs ++ ys) ≡ elim (find_by n xs) [ none ↦ find_by n ys | some a ↦ some a ]
  unfolding find_by
  find_by-append n [] ys = refl
  find_by-append n (x ∷ xs) ys = ground (arith, find_by-append n xs ys)

  pub DistinctBy-append :
      (xs ys : List A)
      → DistinctBy xs
      → DistinctBy ys
      → All (λ x. find_by (name x) ys ≡ none) xs
      → DistinctBy (xs ++ ys)
  DistinctBy-append [] ys dx dy h = dy
  DistinctBy-append (x ∷ xs) ys dx dy h =
      (ground (arith, find_by-append (name x) xs ys), DistinctBy-append xs ys dx.1 dy h.1)

  -- A filter, on items with distinct names.
  pub find_by-select :
      (p : A → Bool) (n : Str) (xs : List A)
      → DistinctBy xs
      → find_by n (select p xs)
        ≡ elim (find_by n xs) [ none ↦ none | some a ↦ if p a then some a else none ]
  unfolding find_by
  find_by-select p n [] d = refl
  find_by-select p n (x ∷ xs) d = ground (arith, find_by-select p n xs d.1, str_beq_iff (name x) n)

  pub DistinctBy-select : (p : A → Bool) (xs : List A) → DistinctBy xs → DistinctBy (select p xs)
  DistinctBy-select p [] d = tt
  DistinctBy-select p (x ∷ xs) d =
      ground (arith, DistinctBy-select p xs d.1, find_by-select p (name x) xs d.1)

  -- What holds of every name that is found holds of every item's name.
  pub All-found :
      (P : Str → Type 0) (xs : List A)
      → ((n : Str) (a : A) → find_by n xs ≡ some a → P n)
      → All (λ x. P (name x)) xs
  unfolding find_by
  All-found P [] h = tt
  All-found P (x ∷ xs) h = (
    h (name x) x (ground (arith, str_beq_iff (name x) (name x))),
    All-found P xs (λ n a e. elim (Bool-cases (name x == n)) [
      | inl t ↦ h n x (ground arith)
      | inr f ↦ h n a (ground arith)
    ]),
  )

  module _ (less : A → A → Bool) where
    pub find_by-insert_by :
        (n : Str) (a : A) (xs : List A)
        → find_by (name a) xs ≡ none
        → find_by n (insert_by less a xs) ≡ find_by n (a ∷ xs)
    unfolding find_by insert_by
    find_by-insert_by n a [] h = refl
    find_by-insert_by n a (x ∷ xs) h = ground (
      arith,
      find_by-insert_by n a xs,
      str_beq_iff (name x) (name a),
      str_beq_iff (name x) n,
      str_beq_iff (name a) n,
    )

    DistinctBy-insert_by :
        (a : A) (xs : List A)
        → find_by (name a) xs ≡ none
        → DistinctBy xs
        → DistinctBy (insert_by less a xs)
    unfolding find_by insert_by
    DistinctBy-insert_by a [] h d = (refl, tt)
    DistinctBy-insert_by a (x ∷ xs) h d = ground (
      arith,
      DistinctBy-insert_by a xs,
      find_by-insert_by (name x) a xs,
      str_beq_iff (name x) (name a),
      str_beq_iff (name a) (name x),
    )

    pub find_by-sort_slice :
        (n : Str) (xs : List A) → DistinctBy xs → find_by n (sort_slice less xs) ≡ find_by n xs
    unfolding find_by sort_slice
    find_by-sort_slice n [] d = refl
    find_by-sort_slice n (x ∷ xs) d = ground (
      arith,
      find_by-insert_by n x (sort_slice less xs),
      find_by-sort_slice (name x) xs,
      find_by-sort_slice n xs,
    )

    pub DistinctBy-sort_slice : (xs : List A) → DistinctBy xs → DistinctBy (sort_slice less xs)
    unfolding sort_slice
    DistinctBy-sort_slice [] d = tt
    DistinctBy-sort_slice (x ∷ xs) d = ground (
      arith,
      find_by-sort_slice (name x) xs,
      DistinctBy-sort_slice xs,
      DistinctBy-insert_by x (sort_slice less xs),
    )

-- The orders that the code sorts by.
abbrev pub less_by_int {ℓ} : {A : Type ℓ} → (A → ℤ) → A → A → Bool
less_by_int f a b = ltb_ℤ (f a) (f b)

abbrev pub less_by_name {ℓ} : {A : Type ℓ} → (A → Str) → A → A → Bool
less_by_name f a b = str_lt (f a) (f b)

pub less_by_int-StrictWeak {ℓ} : {A : Type ℓ} (f : A → ℤ) → StrictWeak (less_by_int f)
less_by_int-StrictWeak f = record { asym = λ a b h. ground arith; weak = λ a b c h k. ground arith }

pub less_by_name-StrictWeak {ℓ} : {A : Type ℓ} (f : A → Str) → StrictWeak (less_by_name f)
less_by_name-StrictWeak f = record {
  asym = λ a b. str_lt_asym (f a) (f b);
  weak = λ a b c. str_lt_weak (f a) (f b) (f c);
}
