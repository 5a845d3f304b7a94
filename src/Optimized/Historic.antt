-- ===== src/Optimized/Historic.antt =====
-- splitio/proxy/storage/optimized/historic.go: the history of feature flags, sorted by change
-- number, from which the proxy answers `splitChanges` requests. The mutex makes each public method
-- one step, so it is left out.
pub mod Incoming
pub mod FlagSets
pub mod History
pub mod Query
pub mod Matching
use split_synchronizer.Prelude.{
  ℕ, suc, Ordering, Bool, true, false, not, ◌&&◌, ◌||◌, Option, none, some, List, [], ◌∷◌, ◌++◌,
  map, if◌then◌else◌, length, get_elem?, set, drop, ℤ, ltb_ℤ, int_eq, minus_one, ◌==◌, nat_beq,
}
use split_synchronizer.Prelude.Named.{less_by_int, less_by_name}
use split_synchronizer.Prelude.Searching.{search_first}
use split_synchronizer.Prelude.Sorting.{sort_slice}
use split_synchronizer.Prelude.Str.{Str, str, str_compare, str_lt, str_eq}

pub record FlagSetView : Type 0 where
  pub name : Str
  pub active : Bool
  pub last_updated : ℤ

pub record FeatureView : Type 0 where
  pub name : Str
  pub active : Bool
  pub last_updated : ℤ
  pub traffic_type_name : Str
  pub flag_sets : List FlagSetView

-- The feature flag that the backend sends, with the fields that this code reads or writes; `C` is
-- the type of its conditions, which it only passes on.
pub record SplitDto (C : Type 0) : Type 0 where
  pub name : Str
  pub status : Str
  pub change_number : ℤ
  pub traffic_type_name : Str
  pub sets : List Str
  pub traffic_allocation : ℕ
  pub traffic_allocation_seed : ℤ
  pub seed : ℤ
  pub killed : Bool
  pub default_treatment : Str
  pub algo : ℕ
  pub conditions : List C

abbrev pub active_status : Str
active_status = str "ACTIVE"

-- The Go zero value of a view, `var toAdd FeatureView`.
abbrev pub no_view : FeatureView
no_view = record {
  name = [];
  active = false;
  last_updated = ℤ.pos 0;
  traffic_type_name = [];
  flag_sets = [];
}

-- `slices.Index`, with `none` for -1.
unfoldable pub index_of : Str → List Str → Option ℕ
index_of x [] = none
index_of x (y ∷ ys) =
    if y == x then some 0 else elim (index_of x ys) [ none ↦ none | some i ↦ some (suc i) ]

-- `xs[len(xs)-1]`, where `x` is the first element.
last_or : Str → List Str → Str
last_or x [] = x
last_or x (y ∷ ys) = last_or y ys

-- `xs[:len(xs)-1]`
init : List Str → List Str
init [] = []
init (x ∷ []) = []
init (x ∷ y ∷ ys) = x ∷ init (y ∷ ys)

-- `incoming[i] = incoming[len-1]; incoming = incoming[:len-1]`
pub swap_remove : List Str → ℕ → List Str
unfolding last_or init
swap_remove [] i = []
swap_remove (x ∷ xs) i = init (set (x ∷ xs) i (last_or x xs))

-- What the loop of `updateFlagsets` leaves of `incoming` after it met the flag set `n`.
pub consume : Str → List Str → List Str
consume n incoming = elim (index_of n incoming) [
  | none ↦ incoming
  | some i ↦ swap_remove incoming i
]

-- What it makes of one flag set: `listed` says whether the name was found in `incoming`.
pub refresh : ℤ → Bool → FlagSetView → FlagSetView
refresh cn true f = if f.active then f else record f { active = true; last_updated = cn }
refresh cn false f = record f { active = false; last_updated = cn }

pub listed : Str → List Str → Bool
listed n incoming = elim (index_of n incoming) [ none ↦ false | some _ ↦ true ]

-- The loop over the current flag sets: those flag sets, refreshed, and what is left of `incoming`.
pub refresh_all : ℤ → List FlagSetView → List Str → List FlagSetView × List Str
unfolding listed consume refresh
refresh_all cn [] incoming = ([], incoming)
refresh_all cn (f ∷ fs) incoming =
    let rest = refresh_all cn fs (consume f.name incoming) in
    (refresh cn (listed f.name incoming) f ∷ rest.0, rest.1)

abbrev pub new_flag_set : ℤ → Str → FlagSetView
new_flag_set cn n = record { name = n; active = true; last_updated = cn }

pub update_flagsets : List FlagSetView → List Str → ℤ → List FlagSetView
unfolding refresh_all sort_slice
update_flagsets fs sets cn =
    let swept = refresh_all cn fs sets in
    sort_slice (less_by_name (λ f. f.name)) (swept.0 ++ map (new_flag_set cn) swept.1)

module _ {C : Type 0} where
  pub view_update_from : FeatureView → SplitDto C → FeatureView
  unfolding update_flagsets
  view_update_from f s = record {
    name = s.name;
    active = s.status == active_status;
    last_updated = s.change_number;
    traffic_type_name = s.traffic_type_name;
    flag_sets = update_flagsets f.flag_sets s.sets s.change_number;
  }

  -- `findByName`, with the update through the pointer that it returns, or the append.
  pub upsert : List FeatureView → SplitDto C → List FeatureView
  unfolding view_update_from
  upsert [] s = view_update_from no_view s ∷ []
  upsert (v ∷ vs) s = if v.name == s.name then view_update_from v s ∷ vs else v ∷ upsert vs s

  pub update_from : List FeatureView → List (SplitDto C) → List FeatureView
  unfolding upsert
  update_from h [] = h
  update_from h (s ∷ source) = update_from (upsert h s) source

  unfoldable pub update :
      List FeatureView → List (SplitDto C) → List (SplitDto C) → List FeatureView
  unfolding update_from sort_slice
  update h to_add to_remove =
      sort_slice (less_by_int (λ v. v.last_updated)) (update_from (update_from h to_add) to_remove)

-- `findFlagSetByName`
pub find_flag_set_by_name : List FlagSetView → Str → Option FlagSetView
unfolding search_first
find_flag_set_by_name fs name =
    let at =
      search_first (length fs)
        (λ i. elim (get_elem? fs i) [ none ↦ true | some f ↦ not (str_lt f.name name) ]) in
    elim (get_elem? fs at) [ none ↦ none | some f ↦ if name == f.name then some f else none ]

-- `findNewerThan`, with the empty slice for nil.
pub find_newer_than : List FeatureView → ℤ → List FeatureView
unfolding search_first
find_newer_than h since =
    let start =
      search_first (length h)
        (λ i. elim (get_elem? h i) [ none ↦ true | some v ↦ ltb_ℤ since v.last_updated ]) in
    if nat_beq start (length h) then [] else drop start h

-- The test of the matching case: an active association, or one that was archived after `since`.
abbrev pub is_eligible : ℤ → FlagSetView → Bool
is_eligible since f = f.active || (ltb_ℤ minus_one since && ltb_ℤ since f.last_updated)

-- The loop of `featureShouldBeReturned`. The two indices are kept as what is left of the two slices
-- from them on; `incrUpTo` never moves the second past the last requested set.
pub intersects : ℤ → List FlagSetView → List Str → Bool
intersects since [] sets = false
intersects since (f ∷ fs) [] = false
intersects since (f ∷ fs) (s ∷ []) = elim (str_compare f.name s) [
  | Ordering.eq ↦
      let rest = intersects since fs (s ∷ []) in if is_eligible since f then true else rest
  | Ordering.lt ↦ intersects since fs (s ∷ [])
  | Ordering.gt ↦ intersects since fs (s ∷ [])
]
intersects since (f ∷ fs) (s ∷ t ∷ []) = elim (str_compare f.name s) [
  | Ordering.eq ↦
      let rest = intersects since fs (t ∷ []) in if is_eligible since f then true else rest
  | Ordering.lt ↦ intersects since fs (s ∷ t ∷ [])
  | Ordering.gt ↦ intersects since fs (t ∷ [])
]
intersects since (f ∷ fs) (s ∷ t ∷ u ∷ us) = elim (str_compare f.name s) [
  | Ordering.eq ↦
      let rest = intersects since fs (t ∷ u ∷ us) in if is_eligible since f then true else rest
  | Ordering.lt ↦ intersects since fs (s ∷ t ∷ u ∷ us)
  | Ordering.gt ↦ intersects since (f ∷ fs) (t ∷ u ∷ us)
]

pub feature_should_be_returned : FeatureView → ℤ → List Str → Bool
unfolding intersects
feature_should_be_returned view since sets =
    if (since == minus_one && not view.active) || ltb_ℤ view.last_updated since
    then false
    else elim sets [ [] ↦ true | s ∷ ss ↦ intersects since view.flag_sets (s ∷ ss) ]

-- `copyAndFilter`; a clone is the value itself.
pub copy_and_filter : List FeatureView → List Str → ℤ → List FeatureView
unfolding feature_should_be_returned
copy_and_filter [] sets since = []
copy_and_filter (v ∷ vs) sets since =
    let rest = copy_and_filter vs sets since in
    if feature_should_be_returned v since sets then v ∷ rest else rest

unfoldable pub get_updated_since : List FeatureView → ℤ → List Str → List FeatureView
unfolding find_newer_than copy_and_filter sort_slice
get_updated_since h since flag_sets =
    copy_and_filter (find_newer_than h since) (sort_slice str_lt flag_sets) since

-- `FlagSetNames`
unfoldable pub flag_set_names : FeatureView → List Str
flag_set_names f = map (λ s. s.name) f.flag_sets
