-- ===== src/Telemetry/Rollover.antt =====
-- The number of time slices stays bounded, and the slices that are dropped are the oldest.
use split_synchronizer.Prelude.GoMap.{
  GoMap, lookup, delete, lookup-delete, Distinct, delete-Distinct,
}
use split_synchronizer.Prelude.Keys.{contains, Nodups}
use split_synchronizer.Prelude.Membership.{contains-insert_by, contains-sort_slice}
use split_synchronizer.Prelude.Sorting.{
  insert_by, sort_slice, IsSorted, sort_slice-IsSorted, StrictWeak, length-sort_slice,
}
use split_synchronizer.Prelude.{
  ℕ, zero, suc, ◌+◌, ◌-◌, ◌≤◌, Bool, true, false, Option, none, some, List, [], ◌∷◌, if◌then◌else◌,
  length, take, ltb, nat_beq_iff, nat_eq, ◌≡◌, refl, arith, ◌∙◌, All, Bool-cases, inl, inr, ap,
  length-take,
}
use split_synchronizer.Telemetry.TimeSlices.{keys, delete_all, sorted_keys, unsafe_rollover}

abbrev is_some : {A : Type 0} → Option A → Bool
is_some none = false
is_some (some a) = true

Nodups-insert_by :
    (a : ℕ) (xs : List ℕ) → contains a xs ≡ false → Nodups xs → Nodups (insert_by ltb a xs)
unfolding contains insert_by
Nodups-insert_by a [] h d = (refl, tt)
Nodups-insert_by a (x ∷ xs) h d =
    ground (arith, Nodups-insert_by a xs, contains-insert_by ltb x a xs)

Nodups-sort : (xs : List ℕ) → Nodups xs → Nodups (sort_slice ltb xs)
unfolding sort_slice
Nodups-sort [] d = tt
Nodups-sort (x ∷ xs) d =
    Nodups-insert_by x (sort_slice ltb xs) (contains-sort_slice ltb x xs ∙ d.0) (Nodups-sort xs d.1)

contains-take : (k n : ℕ) (xs : List ℕ) → contains k (take n xs) ≡ true → contains k xs ≡ true
unfolding contains
contains-take k zero xs h = cc
contains-take k (suc n) [] h = h
contains-take k (suc n) (x ∷ xs) h = ground (arith, contains-take k n xs)

Nodups-take : (n : ℕ) (xs : List ℕ) → Nodups xs → Nodups (take n xs)
unfolding contains
Nodups-take zero xs d = tt
Nodups-take (suc n) [] d = tt
Nodups-take (suc n) (x ∷ xs) d = (
  elim (Bool-cases (contains x (take n xs))) [
    | inl t ↦ ground (arith, contains-take x n xs t)
    | inr f ↦ f
  ],
  Nodups-take n xs d.1,
)

module _ {A : Type 0} where
  contains-keys : (k : ℕ) (m : GoMap ℕ A) → contains k (keys m) ≡ is_some (lookup k m)
  unfolding contains lookup
  contains-keys k [] = refl
  contains-keys k ((j, v) ∷ m) = ground (arith, contains-keys k m)

  Nodups-keys : (m : GoMap ℕ A) → Distinct m → Nodups (keys m)
  Nodups-keys [] d = tt
  Nodups-keys ((j, v) ∷ m) d = (contains-keys j m ∙ ap is_some d.0, Nodups-keys m d.1)

  length-keys : (m : GoMap ℕ A) → length (keys m) ≡ length m
  length-keys [] = refl
  length-keys (e ∷ m) = ap suc (length-keys m)

  lookup-delete_all :
      (k : ℕ) (ks : List ℕ) (m : GoMap ℕ A)
      → lookup k (delete_all ks m) ≡ (if contains k ks then none else lookup k m)
  unfolding contains delete_all
  lookup-delete_all k [] m = refl
  lookup-delete_all k (j ∷ ks) m =
      ground (arith, lookup-delete_all k ks (delete j m), lookup-delete j k m)

  delete_absent : (k : ℕ) (m : GoMap ℕ A) → lookup k m ≡ none → delete k m ≡ m
  unfolding lookup delete
  delete_absent k [] h = refl
  delete_absent k ((j, v) ∷ m) h = ground (arith, delete_absent k m)

  length-delete :
      (k : ℕ) (m : GoMap ℕ A)
      → Distinct m
      → is_some (lookup k m) ≡ true
      → suc (length (delete k m)) ≡ length m
  unfolding lookup delete
  length-delete k [] d h = cc
  length-delete k ((j, v) ∷ m) d h =
      ground (arith, length-delete k m d.1, delete_absent k m, nat_beq_iff j k)

  length-delete_all :
      (ks : List ℕ) (m : GoMap ℕ A)
      → Nodups ks
      → Distinct m
      → ((k : ℕ) → contains k ks ≡ true → is_some (lookup k m) ≡ true)
      → length (delete_all ks m) + length ks ≡ length m
  unfolding contains delete_all
  length-delete_all [] m n d h = omega arith
  length-delete_all (j ∷ ks) m n d h =
      let rest =
        length-delete_all ks (delete j m) n.1 (delete-Distinct j m d)
          (λ k c. ground (arith, h k, lookup-delete j k m, nat_beq_iff j k)) in
      ground (arith, rest, length-delete j m d, h j)

  module _ (most : ℕ) (m : GoMap ℕ A) (d : Distinct m) where
    dropped : List ℕ
    dropped = take (length m - most) (sorted_keys m)

    length-dropped : length dropped ≡ length m - most
    unfolding dropped sorted_keys
    length-dropped =
        length-take (length m - most) (sorted_keys m)
          (omega (arith, length-sort_slice ltb (keys m), length-keys m))

    dropped_present : (k : ℕ) → contains k dropped ≡ true → is_some (lookup k m) ≡ true
    unfolding dropped sorted_keys
    dropped_present k c = ground (
      arith,
      contains-take k (length m - most) (sorted_keys m) c,
      contains-sort_slice ltb k (keys m),
      contains-keys k m,
    )

    -- The rollover leaves as many slices as are allowed, or all that there are.
    pub length-unsafe_rollover : length (unsafe_rollover most m) ≤ most
    unfolding unsafe_rollover sorted_keys dropped
    length-unsafe_rollover = ground (
      arith,
      length-dropped,
      length-delete_all dropped m
          (Nodups-take (length m - most) (sorted_keys m) (Nodups-sort (keys m) (Nodups-keys m d))) d
          dropped_present,
    )

ltb-StrictWeak : StrictWeak ltb
ltb-StrictWeak = record { asym = λ a b h. ground arith; weak = λ a b c h k. ground arith }

All-contains :
    (a k : ℕ) (xs : List ℕ) → All (λ y. ltb y a ≡ false) xs → contains k xs ≡ true → a ≤ k
unfolding contains
All-contains a k [] h c = cc
All-contains a k (x ∷ xs) h c = ground (arith, All-contains a k xs h.1)

-- In a sorted list, what stands in the first part is not above what does not.
take_le :
    (n j k : ℕ) (xs : List ℕ)
    → IsSorted ltb xs
    → contains j (take n xs) ≡ true
    → contains k xs ≡ true
    → contains k (take n xs) ≡ false
    → j ≤ k
unfolding contains
take_le zero j k xs s cj ck nk = cc
take_le (suc n) j k [] s cj ck nk = cc
take_le (suc n) j k (x ∷ xs) s cj ck nk =
    ground (arith, take_le n j k xs s.1, All-contains x k xs s.0)

module _ {A : Type 0} (most : ℕ) (m : GoMap ℕ A) where
  -- A slice that the rollover drops does not begin later than one that it keeps, and it does not change
  -- the slices that it keeps.
  pub unsafe_rollover-oldest :
      (j k : ℕ) (v w : A)
      → lookup j m ≡ some v
      → lookup j (unsafe_rollover most m) ≡ none
      → lookup k (unsafe_rollover most m) ≡ some w
      → (j ≤ k) × (lookup k m ≡ some w)
  unfolding unsafe_rollover sorted_keys
  unsafe_rollover-oldest j k v w old gone kept =
      let n = length m - most in
      let dj = lookup-delete_all j (take n (sorted_keys m)) m in
      let dk = lookup-delete_all k (take n (sorted_keys m)) m in
      ground (
        arith,
        dj,
        dk,
        take_le n j k (sorted_keys m) (sort_slice-IsSorted ltb ltb-StrictWeak (keys m)),
        contains-sort_slice ltb k (keys m),
        contains-keys k m,
      )
