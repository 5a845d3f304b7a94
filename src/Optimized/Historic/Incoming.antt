-- ===== src/Optimized/Historic/Incoming.antt =====
-- The flag sets of an incoming feature flag, counted by name while the loop of `updateFlagsets` takes
-- them off one by one.
use split_synchronizer.Optimized.Historic.{index_of, last_or, init, swap_remove, consume, listed}
use split_synchronizer.Prelude.Sorting.{count_if}
use split_synchronizer.Prelude.Str.{Str, str_beq_iff, str_eq}
use split_synchronizer.Prelude.{
  ℕ, zero, suc, ◌+◌, ◌-◌, ◌≤◌, none, some, List, [], ◌∷◌, if◌then◌else◌, get_elem?, set, ◌==◌, ◌≡◌,
  refl, arith, ltb, Bool-cases, ap, ◌⊎◌, inl, inr,
}

-- How often a name is listed.
unfoldable pub count : Str → List Str → ℕ
unfolding count_if
count n xs = count_if (λ x. x == n) xs

-- No name is listed twice.
abbrev pub Once : List Str → Type 0
Once xs = (n : Str) → count n xs ≤ 1

count-init :
    (n x : Str) (xs : List Str)
    → count n (x ∷ xs) ≡ count n (init (x ∷ xs)) + count n (last_or x xs ∷ [])
unfolding count init last_or
count-init n x [] = ground arith
count-init n x (y ∷ ys) = ground (arith, count-init n y ys)

count-set :
    (n v w : Str) (xs : List Str) (i : ℕ)
    → get_elem? xs i ≡ some w
    → count n (set xs i v) + count n (w ∷ []) ≡ count n xs + count n (v ∷ [])
unfolding count
count-set n v w [] i h = ground arith
count-set n v w (x ∷ xs) zero h = ground arith
count-set n v w (x ∷ xs) (suc i) h = ground (arith, count-set n v w xs i h)

index_of_found :
    (n : Str) (xs : List Str)
    → ((index_of n xs ≡ none) × (count n xs ≡ 0))
      ⊎ ((i : ℕ) × (index_of n xs ≡ some i) × (get_elem? xs i ≡ some n))
unfolding index_of count
index_of_found n [] = inl (refl, refl)
index_of_found n (x ∷ xs) = elim (index_of_found n xs) [
  | inl (e, c) ↦ elim (Bool-cases (x == n)) [
    | inl t ↦ inr (0, rw t, ap some ((str_beq_iff x n).0 t))
    | inr f ↦ inl (ground arith, ground arith)
  ]
  | inr (i, e, g) ↦ elim (Bool-cases (x == n)) [
    | inl t ↦ inr (0, rw t, ap some ((str_beq_iff x n).0 t))
    | inr f ↦ inr (suc i, ground arith, g)
  ]
]

last_or_self : (x : Str) (xs : List Str) → last_or (last_or x xs) xs ≡ last_or x xs
unfolding last_or
last_or_self x [] = refl
last_or_self x (y ∷ ys) = refl

last_or-set : (x : Str) (xs : List Str) (i : ℕ) → last_or x (set xs i (last_or x xs)) ≡ last_or x xs
unfolding last_or
last_or-set x [] i = refl
last_or-set x (y ∷ ys) zero = last_or_self y ys
last_or-set x (y ∷ ys) (suc i) = last_or-set y ys i

count-swap_remove :
    (n w : Str) (xs : List Str) (i : ℕ)
    → get_elem? xs i ≡ some w
    → count n (swap_remove xs i) + count n (w ∷ []) ≡ count n xs
unfolding swap_remove
count-swap_remove n w [] i h = ground arith
count-swap_remove n w (x ∷ xs) zero h = ground (
  arith,
  count-init n (last_or x xs) xs,
  last_or_self x xs,
  count-set n (last_or x xs) w (x ∷ xs) 0 h,
)
count-swap_remove n w (x ∷ xs) (suc i) h = ground (
  arith,
  count-init n x (set xs i (last_or x xs)),
  last_or-set x xs i,
  count-set n (last_or x xs) w (x ∷ xs) (suc i) h,
)

pub count_one : (n m : Str) → count m (n ∷ []) ≡ (if n == m then 1 else 0)
unfolding count
count_one n m = ground arith

-- A name that is met is dropped once; any other stays as often as it was listed.
pub count-consume :
    (n m : Str) (xs : List Str)
    → count m (consume n xs) ≡ (if n == m then count m xs - 1 else count m xs)
unfolding consume
count-consume n m xs = elim (index_of_found n xs) [
  | inl (e, c) ↦ rw (e, consume) (ground (arith, c, str_beq_iff n m))
  | inr (i, e, g) ↦ rw (e, consume) (ground (arith, count-swap_remove m n xs i g, count_one n m))
]

pub listed-count : (n : Str) (xs : List Str) → listed n xs ≡ ltb 0 (count n xs)
unfolding listed
listed-count n xs = elim (index_of_found n xs) [
  | inl (e, c) ↦ rw (e, listed) (ground (arith, c))
  | inr (i, e, g) ↦
      rw (e, listed) (ground (arith, count-swap_remove n n xs i g, count_one n n, str_beq_iff n n))
]
