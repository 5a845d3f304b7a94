-- ===== src/Optimized/Historic/Matching.antt =====
-- The loop of `featureShouldBeReturned` over the two sorted slices: what it finds, and what it
-- misses.
use split_synchronizer.Optimized.Historic.{FlagSetView, is_eligible, intersects}
use split_synchronizer.Prelude.Keys.{contains}
use split_synchronizer.Prelude.Str.{
  Str, str_lt, str_beq_iff, str_eq, str_compare_eq, str_compare_refl, str_compare_flip,
  str_compare_trans,
}
use split_synchronizer.Prelude.{
  true, List, [], ◌∷◌, ◌++◌, ◌≡◌, refl, arith, ℤ, All, Any, inl, inr, Ordering, ◌⊎◌,
}

-- Some association is with a requested set, and counts at `since`.
abbrev pub Meets : ℤ → List FlagSetView → List Str → Type 0
Meets since fs sets = Any (λ f. (is_eligible since f ≡ true) × (contains f.name sets ≡ true)) fs

Meets-later :
    (since : ℤ) (fs : List FlagSetView) (sets more : List Str)
    → ((n : Str) → contains n sets ≡ true → contains n more ≡ true)
    → Meets since fs sets
    → Meets since fs more
Meets-later since [] sets more h m = m
Meets-later since (g ∷ fs) sets more h (inl m) = inl (m.0, h g.name m.1)
Meets-later since (g ∷ fs) sets more h (inr m) = inr (Meets-later since fs sets more h m)

Ordering-cases : (o : Ordering) → (o ≡ Ordering.lt) ⊎ (o ≡ Ordering.eq) ⊎ (o ≡ Ordering.gt)
Ordering-cases Ordering.lt = inl refl
Ordering-cases Ordering.eq = inr (inl refl)
Ordering-cases Ordering.gt = inr (inr refl)

contains_later :
    (s n : Str) (sets : List Str) → contains n sets ≡ true → contains n (s ∷ sets) ≡ true
unfolding contains
contains_later s n sets h = ground arith

-- If the loop reports a match, the feature has an association with a requested set that counts at
-- `since`.
pub intersects-Meets :
    (since : ℤ) (fs : List FlagSetView) (sets : List Str)
    → intersects since fs sets ≡ true
    → Meets since fs sets
unfolding intersects contains
intersects-Meets since [] sets h = cc
intersects-Meets since (f ∷ fs) [] h = cc
intersects-Meets since (f ∷ fs) (s ∷ []) h =
    ground
      (arith, intersects-Meets since fs (s ∷ []), str_compare_eq f.name s, str_beq_iff f.name s)
intersects-Meets since (f ∷ fs) (s ∷ t ∷ []) h = ground (
  arith,
  intersects-Meets since fs (s ∷ t ∷ []),
  intersects-Meets since fs (t ∷ []),
  Meets-later since fs (t ∷ []) (s ∷ t ∷ []) (λ n. contains_later s n (t ∷ [])),
  str_compare_eq f.name s,
  str_beq_iff f.name s,
)
intersects-Meets since (f ∷ fs) (s ∷ t ∷ u ∷ us) h = ground (
  arith,
  intersects-Meets since fs (s ∷ t ∷ u ∷ us),
  intersects-Meets since fs (t ∷ u ∷ us),
  intersects-Meets since (f ∷ fs) (t ∷ u ∷ us),
  Meets-later since fs (t ∷ u ∷ us) (s ∷ t ∷ u ∷ us) (λ n. contains_later s n (t ∷ u ∷ us)),
  Meets-later since (f ∷ fs) (t ∷ u ∷ us) (s ∷ t ∷ u ∷ us) (λ n. contains_later s n (t ∷ u ∷ us)),
  str_compare_eq f.name s,
  str_beq_iff f.name s,
)

-- Names that ascend strictly, as the code's sorted slices of distinct names do.
abbrev pub Ascending : List Str → Type 0
Ascending [] = Unit
Ascending (s ∷ sets) = All (λ t. str_lt s t ≡ true) sets × Ascending sets

abbrev pub Ascends : List FlagSetView → Type 0
Ascends [] = Unit
Ascends (f ∷ fs) = All (λ g. str_lt f.name g.name ≡ true) fs × Ascends fs

-- The name is requested, and not as the last one.
abbrev pub IsBeforeLast : Str → List Str → Type 0
IsBeforeLast n [] = ⊥
IsBeforeLast n (s ∷ []) = ⊥
IsBeforeLast n (s ∷ t ∷ sets) = (s ≡ n) ⊎ IsBeforeLast n (t ∷ sets)

-- An association with the set `n` counts at `since`.
abbrev pub Counts : ℤ → Str → List FlagSetView → Type 0
Counts since n = Any (λ f. (f.name ≡ n) × (is_eligible since f ≡ true))

Counts-above :
    (since : ℤ) (m n : Str) (fs : List FlagSetView)
    → All (λ g. str_lt m g.name ≡ true) fs
    → Counts since n fs
    → str_lt m n ≡ true
Counts-above since m n (g ∷ fs) a (inl (e, _)) = rw (← e) a.0
Counts-above since m n (g ∷ fs) a (inr c) = Counts-above since m n fs a.1 c
Counts-above since m n [] a c = absurd c

IsBeforeLast-above :
    (m n : Str) (sets : List Str)
    → All (λ t. str_lt m t ≡ true) sets
    → IsBeforeLast n sets
    → str_lt m n ≡ true
IsBeforeLast-above m n [] a b = absurd b
IsBeforeLast-above m n (s ∷ []) a b = absurd b
IsBeforeLast-above m n (s ∷ t ∷ sets) a (inl e) = rw (← e) a.0
IsBeforeLast-above m n (s ∷ t ∷ sets) a (inr b) = IsBeforeLast-above m n (t ∷ sets) a.1 b

-- With both slices in ascending order, an association that counts at `since` is found if its set is
-- requested and is not the last of the request.
pub intersects-true :
    (since : ℤ) (n : Str) (fs : List FlagSetView) (sets : List Str)
    → Ascends fs
    → Ascending sets
    → IsBeforeLast n sets
    → Counts since n fs
    → intersects since fs sets ≡ true
unfolding intersects
intersects-true since n [] sets a b l c = absurd c
intersects-true since n (f ∷ fs) [] a b l c = absurd l
intersects-true since n (f ∷ fs) (s ∷ []) a b l c = absurd l
intersects-true since n (f ∷ fs) (s ∷ t ∷ []) a b (inr l) c = absurd l
intersects-true since n (f ∷ fs) (s ∷ t ∷ []) a b (inl e) c = ground (
  arith,
  intersects-true since n fs (s ∷ t ∷ []) a.1 b (inl e),
  Counts-above since f.name n fs a.0,
  str_compare_eq f.name s,
  str_compare_flip f.name n,
  str_compare_refl n,
)
intersects-true since n (f ∷ fs) (s ∷ t ∷ u ∷ us) a b (inl e) c = ground (
  arith,
  intersects-true since n fs (s ∷ t ∷ u ∷ us) a.1 b (inl e),
  Counts-above since f.name n fs a.0,
  str_compare_eq f.name s,
  str_compare_flip f.name n,
  str_compare_refl n,
)
intersects-true since n (f ∷ fs) (s ∷ t ∷ u ∷ us) a b (inr l) c = ground (
  arith,
  intersects-true since n fs (s ∷ t ∷ u ∷ us) a.1 b (inr l),
  intersects-true since n fs (t ∷ u ∷ us) a.1 b.1 l,
  intersects-true since n (f ∷ fs) (t ∷ u ∷ us) a b.1 l c,
  IsBeforeLast-above s n (t ∷ u ∷ us) b.0 l,
  str_compare_eq f.name s,
  str_compare_trans f.name s n,
  str_compare_refl n,
)

-- With the associations in ascending order, a request for one set finds an association with it that
-- counts at `since`.
pub intersects-true_single :
    (since : ℤ) (n : Str) (fs : List FlagSetView)
    → Ascends fs
    → Counts since n fs
    → intersects since fs (n ∷ []) ≡ true
unfolding intersects
intersects-true_single since n [] a c = absurd c
intersects-true_single since n (f ∷ fs) a c = ground (
  arith,
  intersects-true_single since n fs a.1,
  Counts-above since f.name n fs a.0,
  str_compare_eq f.name n,
  str_compare_flip f.name n,
  str_compare_refl n,
)

-- An association whose set is above all requested sets but the last is skipped, also when it is the
-- last requested set: the loop goes on with the associations after it.
pub intersects_skips :
    (since : ℤ) (f : FlagSetView) (fs : List FlagSetView) (r : Str) (rs : List Str) (last : Str)
    → All (λ s. str_lt s f.name ≡ true) (r ∷ rs)
    → intersects since (f ∷ fs) (r ∷ (rs ++ last ∷ [])) ≡ intersects since fs (last ∷ [])
unfolding intersects
intersects_skips since f fs r [] last a = ground (arith, str_compare_flip r f.name)
intersects_skips since f fs r (s ∷ []) last a =
    ground (arith, str_compare_flip r f.name, intersects_skips since f fs s [] last a.1)
intersects_skips since f fs r (s ∷ t ∷ rs) last a =
    ground (arith, str_compare_flip r f.name, intersects_skips since f fs s (t ∷ rs) last a.1)
