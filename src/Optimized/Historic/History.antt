-- ===== src/Optimized/Historic/History.antt =====
-- `HistoricChangesImpl.Update` against its specification: a map from names to views, and the order
-- by change number.
use mathlib.Core.Option
use split_synchronizer.Optimized.Historic.Incoming.{Once}
use split_synchronizer.Optimized.Historic.FlagSets.{
  set_name, update_flagsets-DistinctBy, update_flagsets-IsSorted,
}
use split_synchronizer.Optimized.Historic.{
  FeatureView, SplitDto, no_view, view_update_from, upsert, update_from, update,
}
use split_synchronizer.Prelude.Named.{
  find_by, DistinctBy, find_by-sort_slice, DistinctBy-sort_slice, less_by_int, less_by_name,
  less_by_int-StrictWeak,
}
use split_synchronizer.Prelude.Sorting.{IsSorted, sort_slice-IsSorted, All-sort_slice}
use split_synchronizer.Prelude.Str.{Str, str_beq_iff, str_eq}
use split_synchronizer.Prelude.{
  Option, some, List, [], ◌∷◌, ◌++◌, if◌then◌else◌, ◌==◌, ◌≡◌, refl, arith, inl, inr, All,
  Bool-cases, ◌∙◌, ℤ,
}

abbrev pub view_name : FeatureView → Str
view_name v = v.name

abbrev pub view_cn : FeatureView → ℤ
view_cn v = v.last_updated

-- The flag sets of a view are sorted by name, and no name stands twice.
abbrev pub HasSortedSets : FeatureView → Type 0
HasSortedSets v = IsSorted (less_by_name set_name) v.flag_sets × DistinctBy set_name v.flag_sets

-- What every update keeps.
pub record IsHistory (h : List FeatureView) : Type 0 where
  pub sorted : IsSorted (less_by_int view_cn) h
  pub distinct : DistinctBy view_name h
  pub sets : All HasSortedSets h

module _ {C : Type 0} where
  -- The feature flags of a batch list no set twice.
  abbrev pub OnceEach : List (SplitDto C) → Type 0
  OnceEach = All (λ s. Once s.sets)

  view_update_from-HasSortedSets :
      (v : FeatureView) (s : SplitDto C)
      → Once s.sets
      → HasSortedSets v
      → HasSortedSets (view_update_from v s)
  unfolding view_update_from
  view_update_from-HasSortedSets v s once g = (
    update_flagsets-IsSorted v.flag_sets s.sets s.change_number,
    update_flagsets-DistinctBy v.flag_sets s.sets s.change_number once g.1,
  )

  upsert-HasSortedSets :
      (h : List FeatureView) (s : SplitDto C)
      → Once s.sets
      → All HasSortedSets h
      → All HasSortedSets (upsert h s)
  unfolding upsert
  upsert-HasSortedSets [] s once g = (view_update_from-HasSortedSets no_view s once (tt, tt), tt)
  upsert-HasSortedSets (v ∷ vs) s once g = elim (Bool-cases (v.name == s.name)) [
    | inl t ↦ rw t (view_update_from-HasSortedSets v s once g.0, g.1)
    | inr f ↦ rw f (g.0, upsert-HasSortedSets vs s once g.1)
  ]

  -- The map from names to views, as it stands after one feature flag was processed.
  pub find_by-upsert :
      (n : Str) (h : List FeatureView) (s : SplitDto C)
      → find_by view_name n (upsert h s) ≡ (
          if s.name == n
          then some (view_update_from (Option.get_or (find_by view_name s.name h) no_view) s)
          else find_by view_name n h)
  unfolding find_by upsert view_update_from
  find_by-upsert n [] s = ground arith
  find_by-upsert n (v ∷ vs) s = ground (
    arith,
    find_by-upsert n vs s,
    str_beq_iff v.name s.name,
    str_beq_iff v.name n,
    str_beq_iff s.name n,
  )

  upsert-DistinctBy :
      (h : List FeatureView) (s : SplitDto C)
      → DistinctBy view_name h
      → DistinctBy view_name (upsert h s)
  unfolding find_by upsert view_update_from
  upsert-DistinctBy [] s d = (refl, tt)
  upsert-DistinctBy (v ∷ vs) s d = ground (
    arith,
    upsert-DistinctBy vs s d.1,
    find_by-upsert v.name vs s,
    str_beq_iff v.name s.name,
    str_beq_iff s.name v.name,
  )

  update_from-DistinctBy :
      (h : List FeatureView) (source : List (SplitDto C))
      → DistinctBy view_name h
      → DistinctBy view_name (update_from h source)
  unfolding update_from
  update_from-DistinctBy h [] d = d
  update_from-DistinctBy h (s ∷ source) d =
      update_from-DistinctBy (upsert h s) source (upsert-DistinctBy h s d)

  update_from-HasSortedSets :
      (h : List FeatureView) (source : List (SplitDto C))
      → OnceEach source
      → All HasSortedSets h
      → All HasSortedSets (update_from h source)
  unfolding update_from
  update_from-HasSortedSets h [] o g = g
  update_from-HasSortedSets h (s ∷ source) o g =
      update_from-HasSortedSets (upsert h s) source o.1 (upsert-HasSortedSets h s o.0 g)

  module _ (h : List FeatureView) (to_add to_remove : List (SplitDto C)) where
    -- An update with a batch in which no feature flag lists a set twice leaves the history sorted by
    -- change number, with one view for each name, each with its sets sorted and listed once.
    pub update-IsHistory :
        IsHistory h → OnceEach to_add → OnceEach to_remove → IsHistory (update h to_add to_remove)
    unfolding update
    update-IsHistory v oa or = record {
      sorted =
          sort_slice-IsSorted (less_by_int view_cn) (less_by_int-StrictWeak view_cn)
            (update_from (update_from h to_add) to_remove);
      distinct =
          DistinctBy-sort_slice view_name (less_by_int view_cn) _
            (update_from-DistinctBy _ to_remove (update_from-DistinctBy h to_add v.distinct));
      sets =
          All-sort_slice HasSortedSets (less_by_int view_cn) _ (
            update_from-HasSortedSets _ to_remove or
              (update_from-HasSortedSets h to_add oa v.sets));
    }

  -- The view of a feature after the whole batch: the batch's entries of that name, in order.
  abbrev pub view_after : Str → Option FeatureView → List (SplitDto C) → Option FeatureView
  view_after n old [] = old
  view_after n old (s ∷ source) =
      view_after n
        (if s.name == n then some (view_update_from (Option.get_or old no_view) s) else old) source

  find_by-update_from :
      (n : Str) (h : List FeatureView) (source : List (SplitDto C))
      → find_by view_name n (update_from h source) ≡ view_after n (find_by view_name n h) source
  unfolding update_from
  find_by-update_from n h [] = refl
  find_by-update_from n h (s ∷ source) = elim (Bool-cases (s.name == n)) [
    | inl t ↦ ground (
      arith,
      find_by-update_from n (upsert h s) source,
      find_by-upsert n h s,
      str_beq_iff s.name n,
    )
    | inr f ↦ ground (arith, find_by-update_from n (upsert h s) source, find_by-upsert n h s)
  ]

  view_after-append :
      (n : Str) (ys xs : List (SplitDto C)) (o : Option FeatureView)
      → view_after n (view_after n o xs) ys ≡ view_after n o (xs ++ ys)
  view_after-append n ys [] o = refl
  view_after-append n ys (x ∷ xs) o =
      view_after-append n ys xs
        (if x.name == n then some (view_update_from (Option.get_or o no_view) x) else o)

  -- After an update the view of a name is what the batch's entries of that name, the added before the
  -- removed, make of the view that it had; a name without entries keeps its view.
  pub find_by-update :
      (n : Str) (h : List FeatureView) (to_add to_remove : List (SplitDto C))
      → IsHistory h
      → find_by view_name n (update h to_add to_remove)
        ≡ view_after n (find_by view_name n h) (to_add ++ to_remove)
  unfolding update
  find_by-update n h to_add to_remove v =
      find_by-sort_slice view_name (less_by_int view_cn) n _
        (update_from-DistinctBy _ to_remove (update_from-DistinctBy h to_add v.distinct))
      ∙ find_by-update_from n (update_from h to_add) to_remove
      ∙ rw (find_by-update_from n h to_add)
          (view_after-append n to_remove to_add (find_by view_name n h))
