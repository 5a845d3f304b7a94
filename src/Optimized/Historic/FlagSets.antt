-- ===== src/Optimized/Historic/FlagSets.antt =====
-- `updateFlagsets` against its specification, a finite map from set names to associations.
use split_synchronizer.Optimized.Historic.Incoming.{count, Once, count-consume, listed-count}
use split_synchronizer.Optimized.Historic.{
  FlagSetView, consume, refresh, listed, refresh_all, new_flag_set, update_flagsets,
}
use mathlib.Core.Option
use split_synchronizer.Prelude.Named.{
  find_by, find_by-append, DistinctBy, DistinctBy-append, All-found, find_by-sort_slice,
  DistinctBy-sort_slice, less_by_name, less_by_name-StrictWeak,
}
use split_synchronizer.Prelude.Sorting.{IsSorted, sort_slice-IsSorted}
use split_synchronizer.Prelude.Str.{Str, str_beq_iff, str_eq}
use split_synchronizer.Prelude.{
  ◌≤◌, Bool, true, false, Option, none, some, List, [], ◌∷◌, ◌++◌, map, if◌then◌else◌, ℤ, ◌≡◌, refl,
  arith, ltb, All,
}

abbrev pub set_name : FlagSetView → Str
set_name f = f.name

refresh-name : (cn : ℤ) (b : Bool) (f : FlagSetView) → (refresh cn b f).name ≡ f.name
unfolding refresh
refresh-name cn true f = ground arith
refresh-name cn false f = refl

module _ (cn : ℤ) where
  find_by-refresh_all :
      (n : Str) (fs : List FlagSetView) (incoming : List Str)
      → find_by set_name n (refresh_all cn fs incoming).0
        ≡ Option.map (refresh cn (ltb 0 (count n incoming))) (find_by set_name n fs)
  unfolding find_by refresh_all
  find_by-refresh_all n [] incoming = refl
  find_by-refresh_all n (f ∷ fs) incoming = ground (
    arith,
    find_by-refresh_all n fs (consume f.name incoming),
    count-consume f.name n incoming,
    listed-count f.name incoming,
    refresh-name cn (listed f.name incoming) f,
    str_beq_iff f.name n,
  )

  count-refresh_all :
      (n : Str) (fs : List FlagSetView) (incoming : List Str)
      → count n incoming ≤ 1
      → count n (refresh_all cn fs incoming).1
        ≡ elim (find_by set_name n fs) [ none ↦ count n incoming | some _ ↦ 0 ]
  unfolding find_by refresh_all
  count-refresh_all n [] incoming h = refl
  count-refresh_all n (f ∷ fs) incoming h =
      ground
        (arith, count-refresh_all n fs (consume f.name incoming), count-consume f.name n incoming)

  find_by-new :
      (n : Str) (xs : List Str)
      → find_by set_name n (map (new_flag_set cn) xs)
        ≡ (if ltb 0 (count n xs) then some (new_flag_set cn n) else none)
  unfolding find_by count
  find_by-new n [] = refl
  find_by-new n (x ∷ xs) = ground (arith, find_by-new n xs, str_beq_iff x n)

  DistinctBy-refresh_all :
      (fs : List FlagSetView) (incoming : List Str)
      → DistinctBy set_name fs
      → DistinctBy set_name (refresh_all cn fs incoming).0
  unfolding refresh_all
  DistinctBy-refresh_all [] incoming d = tt
  DistinctBy-refresh_all (f ∷ fs) incoming d = (
    rw (refresh-name cn (listed f.name incoming) f)
        (rw (find_by-refresh_all f.name fs (consume f.name incoming), d.0) refl),
    DistinctBy-refresh_all fs (consume f.name incoming) d.1,
  )

  DistinctBy-new : (xs : List Str) → Once xs → DistinctBy set_name (map (new_flag_set cn) xs)
  unfolding count
  DistinctBy-new [] o = tt
  DistinctBy-new (x ∷ xs) o = (
    ground (arith, find_by-new x xs, o x, str_beq_iff x x),
    DistinctBy-new xs (λ n. ground (arith, o n)),
  )

-- Once a name is known, every list of associations with it is swept out of `incoming`.
module _ (fs : List FlagSetView) (sets : List Str) (cn : ℤ) where
  swept_apart :
      Once sets
      → All
          (λ f. find_by set_name f.name (map (new_flag_set cn) (refresh_all cn fs sets).1) ≡ none)
          (refresh_all cn fs sets).0
  swept_apart once =
      All-found set_name
        (λ n. find_by set_name n (map (new_flag_set cn) (refresh_all cn fs sets).1) ≡ none)
        (refresh_all cn fs sets).0
        (λ n a e. ground (
          arith,
          find_by-new cn n (refresh_all cn fs sets).1,
          count-refresh_all cn n fs sets (once n),
          find_by-refresh_all cn n fs sets,
        ))

  swept_distinct :
      Once sets
      → DistinctBy set_name fs
      → DistinctBy set_name
          ((refresh_all cn fs sets).0 ++ map (new_flag_set cn) (refresh_all cn fs sets).1)
  swept_distinct once d =
      DistinctBy-append set_name _ _ (DistinctBy-refresh_all cn fs sets d)
        (DistinctBy-new cn _ (once_left once)) (swept_apart once)
    where
      once_left : Once sets → Once (refresh_all cn fs sets).1
      once_left once n = ground (arith, once n, count-refresh_all cn n fs sets (once n))

  pub update_flagsets-DistinctBy :
      Once sets → DistinctBy set_name fs → DistinctBy set_name (update_flagsets fs sets cn)
  unfolding update_flagsets
  update_flagsets-DistinctBy once d =
      DistinctBy-sort_slice set_name (less_by_name set_name) _ (swept_distinct once d)

  pub update_flagsets-IsSorted : IsSorted (less_by_name set_name) (update_flagsets fs sets cn)
  unfolding update_flagsets
  update_flagsets-IsSorted =
      sort_slice-IsSorted (less_by_name set_name) (less_by_name-StrictWeak set_name)
        ((refresh_all cn fs sets).0 ++ map (new_flag_set cn) (refresh_all cn fs sets).1)

-- The association of a feature with a set after an update: `true` if the update lists the set.
abbrev pub next_association : ℤ → Str → Bool → Option FlagSetView → Option FlagSetView
next_association cn n true none = some (record { name = n; active = true; last_updated = cn })
next_association cn n false none = none
next_association cn n true (some f) =
    some (if f.active then f else record f { active = true; last_updated = cn })
next_association cn n false (some f) = some (record f { active = false; last_updated = cn })

-- An update of a feature's sets, which lists none twice, does to the association with each set what
-- `next_association` says: a listed one is active, from this change on unless it was active
-- already, one that is not listed is archived at this change, and a set that was neither stays out.
pub find_by-update_flagsets :
    (fs : List FlagSetView) (sets : List Str) (cn : ℤ) (n : Str)
    → DistinctBy set_name fs
    → Once sets
    → find_by set_name n (update_flagsets fs sets cn)
      ≡ next_association cn n (ltb 0 (count n sets)) (find_by set_name n fs)
unfolding update_flagsets refresh
find_by-update_flagsets fs sets cn n d once = ground (
  arith,
  find_by-sort_slice set_name (less_by_name set_name) n _ (swept_distinct fs sets cn once d),
  find_by-append set_name n (refresh_all cn fs sets).0
      (map (new_flag_set cn) (refresh_all cn fs sets).1),
  find_by-refresh_all cn n fs sets,
  find_by-new cn n (refresh_all cn fs sets).1,
  count-refresh_all cn n fs sets (once n),
)
