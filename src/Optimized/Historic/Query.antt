-- ===== src/Optimized/Historic/Query.antt =====
-- `GetUpdatedSince`: the binary search and the copying loop against a filter of the whole history.
use split_synchronizer.Optimized.Historic.History.{IsHistory, view_cn}
use split_synchronizer.Optimized.Historic.{
  FeatureView, find_newer_than, feature_should_be_returned, copy_and_filter, get_updated_since,
}
use split_synchronizer.Prelude.Newer.{newer_tail, is_newer}
use split_synchronizer.Prelude.Sorting.{sort_slice}
use split_synchronizer.Prelude.Str.{Str, str_lt}
use split_synchronizer.Prelude.{
  Bool, not, ◌&&◌, ◌||◌, List, [], ◌∷◌, ◌≡◌, refl, arith, ◌∙◌, ap, ℤ, ltb_ℤ, select, minus_one,
  int_beq, Bool-cases, inl, inr,
}

find_newer_than-select :
    (h : List FeatureView) (since : ℤ)
    → IsHistory h
    → find_newer_than h since ≡ select (is_newer view_cn since) h
unfolding find_newer_than
find_newer_than-select h since v = newer_tail view_cn since h v.sorted

-- What a request for the changes since `since` is to get, flag by flag.
abbrev pub is_wanted : ℤ → List Str → FeatureView → Bool
is_wanted since sets v =
    ltb_ℤ since v.last_updated && feature_should_be_returned v since (sort_slice str_lt sets)

copy_and_filter-select :
    (h : List FeatureView) (since : ℤ) (sets : List Str)
    → copy_and_filter (select (is_newer view_cn since) h) sets since
      ≡ select (λ v. ltb_ℤ since v.last_updated && feature_should_be_returned v since sets) h
unfolding copy_and_filter
copy_and_filter-select [] since sets = refl
copy_and_filter-select (v ∷ vs) since sets = elim (Bool-cases (ltb_ℤ since v.last_updated)) [
  | inl t ↦ ground (arith, copy_and_filter-select vs since sets)
  | inr f ↦ ground (arith, copy_and_filter-select vs since sets)
]

-- On a history, the binary search and the copying loop give exactly the views, in order, that
-- changed after `since` and pass the test of the requested sets.
pub get_updated_since-select :
    (h : List FeatureView) (since : ℤ) (sets : List Str)
    → IsHistory h
    → get_updated_since h since sets ≡ select (is_wanted since sets) h
unfolding get_updated_since
get_updated_since-select h since sets v =
    ap (λ tail. copy_and_filter tail (sort_slice str_lt sets) since)
      (find_newer_than-select h since v)
    ∙ copy_and_filter-select h since (sort_slice str_lt sets)

-- Without a set filter, a request gets what changed after `since`, but nothing archived on the
-- first fetch.
abbrev pub changed_after : ℤ → FeatureView → Bool
changed_after since v = ltb_ℤ since v.last_updated && (not (int_beq since minus_one) || v.active)

select_unfiltered :
    (h : List FeatureView) (since : ℤ)
    → select (is_wanted since []) h ≡ select (changed_after since) h
unfolding feature_should_be_returned sort_slice
select_unfiltered [] since = refl
select_unfiltered (v ∷ vs) since = ground (arith, select_unfiltered vs since)

-- On a history, a request without a set filter gets exactly the views that changed after `since`, in
-- order, without the archived ones if `since` is -1.
pub get_updated_since_unfiltered :
    (h : List FeatureView) (since : ℤ)
    → IsHistory h
    → get_updated_since h since [] ≡ select (changed_after since) h
get_updated_since_unfiltered h since v =
    get_updated_since-select h since [] v ∙ select_unfiltered h since
