-- ===== src/Observability/SplitTracker.antt =====
-- splitio/provisional/observability/split_wrapper.go: the names of the flags that a storage holds,
-- kept beside it. The wrapped storage is not in the repository: its answer to an update is an
-- argument. A mutex makes each update one step.
use split_synchronizer.Optimized.Historic.{SplitDto}
use split_synchronizer.Prelude.GoMap.{GoMap, lookup, store, delete, lookup-store, lookup-delete}
use split_synchronizer.Prelude.Keys.{contains}
use split_synchronizer.Prelude.Str.{Str, str_eq, str_beq_iff}
use split_synchronizer.Prelude.{
  ℕ, zero, suc, Bool, true, false, not, ◌&&◌, ◌||◌, none, some, List, [], ◌∷◌, ◌≡◌, refl, arith, ap,
  ◌≤◌, length,
}

-- `struct{}`
pub data Present : Type 0 where
  present : Present

abbrev pub ActiveSplits : Type 0
ActiveSplits = GoMap Str Present

unfoldable pub add_names : ActiveSplits → List Str → ActiveSplits
unfolding store
add_names m [] = m
add_names m (name ∷ names) = add_names (store name present m) names

unfoldable pub delete_names : ActiveSplits → List Str → ActiveSplits
unfolding delete
delete_names m [] = m
delete_names m (name ∷ names) = delete_names (delete name m) names

unfoldable pub update : ActiveSplits → List Str → List Str → ActiveSplits
unfolding add_names delete_names
update m to_add to_remove = delete_names (add_names m to_add) to_remove

-- `count` and `names`
abbrev pub count : ActiveSplits → ℕ
count m = length m

abbrev pub names : ActiveSplits → List Str
names [] = []
names ((name, p) ∷ m) = name ∷ names m

unfoldable pub split_names : {C : Type 0} → List (SplitDto C) → List Str
split_names [] = []
split_names (s ∷ splits) = s.name ∷ split_names splits

last_or {ℓ} : {A : Type ℓ} → A → List A → A
last_or x [] = x
last_or x (y ∷ ys) = last_or y ys

init {ℓ} : {A : Type ℓ} → List A → List A
init [] = []
init (x ∷ []) = []
init (x ∷ y ∷ ys) = x ∷ init (y ∷ ys)

-- `newSliceEnd--; in[idx] = in[newSliceEnd]`, on the slice from a failed item to `newSliceEnd`: what
-- follows the item, with its last element first.
last_first {ℓ} : {A : Type ℓ} → List A → List A
unfolding last_or init
last_first [] = []
last_first (x ∷ xs) = last_or x xs ∷ init (x ∷ xs)

-- The loop of `filterFailed`, on the slice from `idx` to `newSliceEnd`; what is before it stays as it
-- is, and what is after it is not read again. `failed` is the test for a key of the map of errors. Each
-- round makes the slice shorter, so that its length is enough fuel.
filter_loop : {C : Type 0} → (Str → Bool) → ℕ → List (SplitDto C) → List (SplitDto C)
unfolding last_first
filter_loop failed zero rest = rest
filter_loop failed (suc fuel) [] = []
filter_loop failed (suc fuel) (s ∷ rest) = elim (failed s.name) [
  | false ↦ s ∷ filter_loop failed fuel rest
  | true ↦ filter_loop failed fuel (last_first rest)
]

unfoldable pub filter_failed : {C : Type 0} → (Str → Bool) → List (SplitDto C) → List (SplitDto C)
unfolding filter_loop
filter_failed failed xs = filter_loop failed (length xs) xs

-- What `UpdateWithErrors` returns.
pub data UpdateOutcome : Type 0 where
  updated other_error : UpdateOutcome
  failed_some : (Str → Bool) → (Str → Bool) → UpdateOutcome

-- `ObservableSplitStorageImpl.Update`
unfoldable pub observe_update :
    {C : Type 0}
    → ActiveSplits
    → List (SplitDto C)
    → List (SplitDto C)
    → UpdateOutcome
    → ActiveSplits
unfolding update split_names filter_failed
observe_update m to_add to_remove updated = update m (split_names to_add) (split_names to_remove)
observe_update m to_add to_remove other_error = m
observe_update m to_add to_remove (failed_some add_failed remove_failed) =
    update m (split_names (filter_failed add_failed to_add))
      (split_names (filter_failed remove_failed to_remove))

-- Whether a flag is tracked.
abbrev pub tracks : ActiveSplits → Str → Bool
tracks m n = elim (lookup n m) [ none ↦ false | some _ ↦ true ]

tracks-add_names :
    (m : ActiveSplits) (ns : List Str) (n : Str)
    → tracks (add_names m ns) n ≡ (contains n ns || tracks m n)
unfolding add_names contains lookup
tracks-add_names m [] n = refl
tracks-add_names m (k ∷ ns) n = ground (
  arith,
  tracks-add_names (store k present m) ns n,
  lookup-store k n present m,
  str_beq_iff k n,
  str_beq_iff n k,
)

tracks-delete_names :
    (m : ActiveSplits) (ns : List Str) (n : Str)
    → tracks (delete_names m ns) n ≡ (not (contains n ns) && tracks m n)
unfolding delete_names contains lookup
tracks-delete_names m [] n = refl
tracks-delete_names m (k ∷ ns) n = ground (
  arith,
  tracks-delete_names (delete k m) ns n,
  lookup-delete k n m,
  str_beq_iff k n,
  str_beq_iff n k,
)

-- After an update the tracked names are those that are removed no more: a name is tracked exactly
-- if it is not among the removed ones and is among the added ones or was tracked.
pub tracks-update :
    (m : ActiveSplits) (to_add to_remove : List Str) (n : Str)
    → tracks (update m to_add to_remove) n
      ≡ (not (contains n to_remove) && (contains n to_add || tracks m n))
unfolding update
tracks-update m to_add to_remove n =
    ground
      (arith, tracks-delete_names (add_names m to_add) to_remove n, tracks-add_names m to_add n)

module _ {C : Type 0} where
  length-init : (y : SplitDto C) (ys : List (SplitDto C)) → length (init (y ∷ ys)) ≡ length ys
  unfolding init
  length-init y [] = refl
  length-init y (z ∷ zs) = ap suc (length-init z zs)

  length-last_first : (xs : List (SplitDto C)) → length (last_first xs) ≡ length xs
  unfolding last_first
  length-last_first [] = refl
  length-last_first (x ∷ xs) = ap suc (length-init x xs)

  contains-last_first :
      (n : Str) (xs : List (SplitDto C))
      → contains n (split_names (last_first xs)) ≡ contains n (split_names xs)
  unfolding last_first last_or init split_names contains
  contains-last_first n [] = refl
  contains-last_first n (x ∷ []) = refl
  contains-last_first n (x ∷ y ∷ ys) = ground (arith, contains-last_first n (y ∷ ys))

  contains-filter_loop :
      (failed : Str → Bool) (fuel : ℕ) (xs : List (SplitDto C)) (n : Str)
      → length xs ≤ fuel
      → contains n (split_names (filter_loop failed fuel xs))
        ≡ (not (failed n) && contains n (split_names xs))
  unfolding filter_loop split_names contains
  contains-filter_loop failed zero [] n h = ground arith
  contains-filter_loop failed zero (x ∷ xs) n h = absurd (omega arith)
  contains-filter_loop failed (suc fuel) [] n h = ground arith
  contains-filter_loop failed (suc fuel) (x ∷ xs) n h = ground (
    arith,
    contains-filter_loop failed fuel xs n,
    contains-filter_loop failed fuel (last_first xs) n,
    length-last_first xs,
    contains-last_first n xs,
    str_beq_iff n x.name,
  )

  -- Of a batch the filter keeps exactly the names that did not fail.
  pub contains-filter_failed :
      (failed : Str → Bool) (xs : List (SplitDto C)) (n : Str)
      → contains n (split_names (filter_failed failed xs))
        ≡ (not (failed n) && contains n (split_names xs))
  unfolding filter_failed
  contains-filter_failed failed xs n = contains-filter_loop failed (length xs) xs n (omega arith)

  -- After an update in which the storage reports some flags as failed, a name is tracked exactly if
  -- it was not removed with success, and was added with success or tracked before.
  pub tracks-observe_update :
      (m : ActiveSplits) (to_add to_remove : List (SplitDto C))
      (add_failed remove_failed : Str → Bool) (n : Str)
      → tracks (observe_update m to_add to_remove (failed_some add_failed remove_failed)) n ≡ (
          not (not (remove_failed n) && contains n (split_names to_remove))
          && ((not (add_failed n) && contains n (split_names to_add)) || tracks m n))
  unfolding observe_update
  tracks-observe_update m to_add to_remove add_failed remove_failed n = ground (
    arith,
    tracks-update m (split_names (filter_failed add_failed to_add))
        (split_names (filter_failed remove_failed to_remove)) n,
    contains-filter_failed add_failed to_add n,
    contains-filter_failed remove_failed to_remove n,
  )
