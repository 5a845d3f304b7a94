-- ===== src/Prelude/Newer.antt =====
-- The tail of a sorted slice that a binary search by change number finds is the filtered slice.
use Prim.Native.Nat.{ℕ, zero, suc, ◌≤◌, ◌<◌}
use mathlib.Core.Bool.{Bool, true, false}
use mathlib.Core.List.{List, [], ◌∷◌}
use mathlib.Core.Option.{none, some}
use mathlib.Core.Path.{◌≡◌, refl, sym, ap, ◌∙◌}
use native.Mathlib.Omega.{arith}
use split_synchronizer.Prelude.Int.{ℤ, ltb_ℤ}
use split_synchronizer.Prelude.Lists.{length, get_elem?, drop, select, All}
use split_synchronizer.Prelude.Named.{less_by_int}
use split_synchronizer.Prelude.Searching.{search_first, Monotone, Splits, search_first-Splits}
use split_synchronizer.Prelude.Sorting.{IsSorted}
use split_synchronizer.Prelude.Tests.{if◌then◌else◌, nat_beq, Bool-cases}
use mathlib.Core.Logic.{inl, inr}

module _ {ℓ} {A : Type ℓ} where
  -- The test that the code hands to the search, at an index.
  abbrev pub test_at : (A → Bool) → List A → ℕ → Bool
  test_at p h i = elim (get_elem? h i) [ none ↦ true | some v ↦ p v ]

  select_all :
      (p : A → Bool) (h : List A) → ((k : ℕ) → k < length h → test_at p h k ≡ true) → h ≡ select p h
  select_all p [] hi = refl
  select_all p (x ∷ xs) hi =
      rw (hi 0 (omega arith)) (ap (◌∷◌ x) (select_all p xs (λ k l. hi (suc k) (omega arith))))

  drop-select :
      (p : A → Bool) (h : List A) (r : ℕ)
      → ((k : ℕ) → k < r → test_at p h k ≡ false)
      → ((k : ℕ) → r ≤ k → k < length h → test_at p h k ≡ true)
      → drop r h ≡ select p h
  drop-select p [] zero lo hi = refl
  drop-select p [] (suc r) lo hi = refl
  drop-select p (x ∷ xs) zero lo hi = select_all p (x ∷ xs) (λ k l. hi k (omega arith) l)
  drop-select p (x ∷ xs) (suc r) lo hi = rw (lo 0 (omega arith)) (
      drop-select p xs r (λ k l. lo (suc k) (omega arith))
        (λ k l m. hi (suc k) (omega arith) (omega arith)))

  drop-length : (h : List A) → drop (length h) h ≡ []
  drop-length [] = refl
  drop-length (x ∷ xs) = drop-length xs

  module _ (cn : A → ℤ) (since : ℤ) where
    abbrev pub is_newer : A → Bool
    is_newer v = ltb_ℤ since (cn v)

    newer-All :
        (x : A) (xs : List A)
        → ltb_ℤ since (cn x) ≡ true
        → All (λ y. less_by_int cn y x ≡ false) xs
        → (k : ℕ) → test_at is_newer xs k ≡ true
    newer-All x [] e h k = refl
    newer-All x (y ∷ ys) e h zero = let l = h.0 in ground arith
    newer-All x (y ∷ ys) e h (suc k) = newer-All x ys e h.1 k

    newer-Monotone :
        (h : List A) → IsSorted (less_by_int cn) h → Monotone (length h) (test_at is_newer h)
    newer-Monotone [] s a b le lt t = refl
    newer-Monotone (x ∷ xs) s zero zero le lt t = t
    newer-Monotone (x ∷ xs) s zero (suc b) le lt t = newer-All x xs t s.0 b
    newer-Monotone (x ∷ xs) s (suc a) zero le lt t = absurd (omega arith)
    newer-Monotone (x ∷ xs) s (suc a) (suc b) le lt t =
        newer-Monotone xs s.1 a b (omega arith) (omega arith) t

    pub newer_tail :
        (h : List A)
        → IsSorted (less_by_int cn) h
        → let start = search_first (length h) (test_at is_newer h) in
          (if nat_beq start (length h) then [] else drop start h) ≡ select is_newer h
    newer_tail h s = elim (Bool-cases (nat_beq start (length h))) [
      | inl t ↦ rw t (sym (drop-length h) ∙ ap (λ k. drop k h) (ground arith) ∙ found)
      | inr f ↦ rw f found
    ]
      where
        start : ℕ
        start = search_first (length h) (test_at is_newer h)

        split : Splits (length h) (test_at is_newer h) start
        split = search_first-Splits (length h) (test_at is_newer h) (newer-Monotone h s)

        found : drop start h ≡ select is_newer h
        found = drop-select is_newer h start split.below split.above
