-- ===== src/Optimized/RbHistoric/Laws.antt =====
-- The history of rule-based segments against its specification: a map from names to views, in the
-- order of change numbers, and a filter for each request.

use split_synchronizer.Optimized.RbHistoric.{
  RbView, RuleBasedSegmentDto, rb_view_from, upsert, update_from, update, find_newer_than,
  should_be_returned, copy_and_filter, get_updated_since,
}
use split_synchronizer.Prelude.Named.{
  find_by, DistinctBy, find_by-sort_slice, DistinctBy-sort_slice, less_by_int,
  less_by_int-StrictWeak,
}
use split_synchronizer.Prelude.Newer.{newer_tail, is_newer}
use split_synchronizer.Prelude.Sorting.{IsSorted, sort_slice-IsSorted}
use split_synchronizer.Prelude.Str.{Str, str_beq_iff, str_eq}
use split_synchronizer.Prelude.{
  Bool, not, ◌&&◌, ◌||◌, Option, some, List, [], ◌∷◌, ◌++◌, if◌then◌else◌, ◌==◌, ◌≡◌, refl, arith,
  ◌∙◌, ap, ℤ, ltb_ℤ, int_beq, minus_one, select,
}

abbrev pub view_name : RbView → Str
view_name v = v.name

abbrev pub view_cn : RbView → ℤ
view_cn v = v.last_updated

pub record IsHistory (h : List RbView) : Type 0 where
  pub sorted : IsSorted (less_by_int view_cn) h
  pub distinct : DistinctBy view_name h

module _ {C : Type 0} where
  find_by-upsert :
      (n : Str) (h : List RbView) (s : RuleBasedSegmentDto C)
      → find_by view_name n (upsert h s)
        ≡ (if s.name == n then some (rb_view_from s) else find_by view_name n h)
  unfolding find_by upsert rb_view_from
  find_by-upsert n [] s = ground arith
  find_by-upsert n (v ∷ vs) s = ground (
    arith,
    find_by-upsert n vs s,
    str_beq_iff v.name s.name,
    str_beq_iff v.name n,
    str_beq_iff s.name n,
  )

  upsert-DistinctBy :
      (h : List RbView) (s : RuleBasedSegmentDto C)
      → DistinctBy view_name h
      → DistinctBy view_name (upsert h s)
  unfolding find_by upsert rb_view_from
  upsert-DistinctBy [] s d = (refl, tt)
  upsert-DistinctBy (v ∷ vs) s d = ground (
    arith,
    upsert-DistinctBy vs s d.1,
    find_by-upsert v.name vs s,
    str_beq_iff v.name s.name,
    str_beq_iff s.name v.name,
  )

  update_from-DistinctBy :
      (h : List RbView) (source : List (RuleBasedSegmentDto C))
      → DistinctBy view_name h
      → DistinctBy view_name (update_from h source)
  unfolding update_from
  update_from-DistinctBy h [] d = d
  update_from-DistinctBy h (s ∷ source) d =
      update_from-DistinctBy (upsert h s) source (upsert-DistinctBy h s d)

  -- Every update keeps the history sorted by change number, with each name once.
  pub rb_update-IsHistory :
      (h : List RbView) (to_add to_remove : List (RuleBasedSegmentDto C))
      → IsHistory h
      → IsHistory (update h to_add to_remove)
  unfolding update
  rb_update-IsHistory h to_add to_remove v = record {
    sorted =
        sort_slice-IsSorted (less_by_int view_cn) (less_by_int-StrictWeak view_cn)
          (update_from (update_from h to_add) to_remove);
    distinct =
        DistinctBy-sort_slice view_name (less_by_int view_cn) _
          (update_from-DistinctBy _ to_remove (update_from-DistinctBy h to_add v.distinct));
  }

  -- The last entry of a batch for a name, if there is one.
  abbrev pub last_entry : Str → Option RbView → List (RuleBasedSegmentDto C) → Option RbView
  last_entry n old [] = old
  last_entry n old (s ∷ source) =
      last_entry n (if s.name == n then some (rb_view_from s) else old) source

  find_by-update_from :
      (n : Str) (h : List RbView) (source : List (RuleBasedSegmentDto C))
      → find_by view_name n (update_from h source) ≡ last_entry n (find_by view_name n h) source
  unfolding update_from
  find_by-update_from n h [] = refl
  find_by-update_from n h (s ∷ source) =
      ground (arith, find_by-update_from n (upsert h s) source, find_by-upsert n h s)

  last_entry-append :
      (n : Str) (ys xs : List (RuleBasedSegmentDto C)) (o : Option RbView)
      → last_entry n (last_entry n o xs) ys ≡ last_entry n o (xs ++ ys)
  last_entry-append n ys [] o = refl
  last_entry-append n ys (x ∷ xs) o =
      last_entry-append n ys xs (if x.name == n then some (rb_view_from x) else o)

  -- After an update of a history the view of a name is the one of the last entry for it, the removed after the
  -- added, and the old view where the batch has no entry.
  pub rb_find_by-update :
      (n : Str) (h : List RbView) (to_add to_remove : List (RuleBasedSegmentDto C))
      → IsHistory h
      → find_by view_name n (update h to_add to_remove)
        ≡ last_entry n (find_by view_name n h) (to_add ++ to_remove)
  unfolding update
  rb_find_by-update n h to_add to_remove v =
      find_by-sort_slice view_name (less_by_int view_cn) n _
        (update_from-DistinctBy _ to_remove (update_from-DistinctBy h to_add v.distinct))
      ∙ find_by-update_from n (update_from h to_add) to_remove
      ∙ rw (find_by-update_from n h to_add)
          (last_entry-append n to_remove to_add (find_by view_name n h))

abbrev pub changed_after : ℤ → RbView → Bool
changed_after since v = ltb_ℤ since v.last_updated && (not (int_beq since minus_one) || v.active)

copy_and_filter-select :
    (h : List RbView) (since : ℤ)
    → copy_and_filter (select (is_newer view_cn since) h) since ≡ select (changed_after since) h
unfolding copy_and_filter should_be_returned
copy_and_filter-select [] since = refl
copy_and_filter-select (v ∷ vs) since = ground (arith, copy_and_filter-select vs since)

-- On a history, the binary search and the copying loop give exactly the views that changed after
-- `since`, in order, without the archived ones if `since` is -1.
pub rb_get_updated_since-select :
    (h : List RbView) (since : ℤ)
    → IsHistory h
    → get_updated_since h since ≡ select (changed_after since) h
unfolding get_updated_since find_newer_than
rb_get_updated_since-select h since v =
    ap (λ tail. copy_and_filter tail since) (newer_tail view_cn since h v.sorted)
    ∙ copy_and_filter-select h since
