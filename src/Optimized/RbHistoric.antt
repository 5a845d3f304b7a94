-- ===== src/Optimized/RbHistoric.antt =====
-- splitio/proxy/storage/optimized/rbshistoric.go: the history of rule-based segments, sorted by
-- change number.
pub mod Laws
use split_synchronizer.Prelude.Named.{less_by_int}
use split_synchronizer.Prelude.Searching.{search_first}
use split_synchronizer.Prelude.Sorting.{sort_slice}
use split_synchronizer.Prelude.Str.{Str, str, str_eq}
use split_synchronizer.Prelude.{
  Bool, true, false, not, ◌&&◌, ◌||◌, none, some, List, [], ◌∷◌, if◌then◌else◌, length, get_elem?,
  drop, ℤ, ltb_ℤ, int_eq, minus_one, ◌==◌, nat_beq,
}

pub record RbView : Type 0 where
  pub name : Str
  pub active : Bool
  pub last_updated : ℤ

-- The rule-based segment that the backend sends, with the fields that this code reads or writes and
-- a rest, of type `C`, that it only passes on.
pub record RuleBasedSegmentDto (C : Type 0) : Type 0 where
  pub name : Str
  pub status : Str
  pub change_number : ℤ
  pub rest : List C

abbrev pub active_status : Str
active_status = str "ACTIVE"

module _ {C : Type 0} where
  -- All three fields are written, so that nothing is left of the old view.
  pub rb_view_from : RuleBasedSegmentDto C → RbView
  rb_view_from s = record {
    name = s.name;
    active = s.status == active_status;
    last_updated = s.change_number;
  }

  -- `findByName`, with the update through the pointer that it returns, or the append.
  pub upsert : List RbView → RuleBasedSegmentDto C → List RbView
  unfolding rb_view_from
  upsert [] s = rb_view_from s ∷ []
  upsert (v ∷ vs) s = if v.name == s.name then rb_view_from s ∷ vs else v ∷ upsert vs s

  pub update_from : List RbView → List (RuleBasedSegmentDto C) → List RbView
  unfolding upsert
  update_from h [] = h
  update_from h (s ∷ source) = update_from (upsert h s) source

  unfoldable pub update :
      List RbView → List (RuleBasedSegmentDto C) → List (RuleBasedSegmentDto C) → List RbView
  unfolding update_from sort_slice
  update h to_add to_remove =
      sort_slice (less_by_int (λ v. v.last_updated)) (update_from (update_from h to_add) to_remove)

-- `findNewerThan`, with the empty slice for nil.
pub find_newer_than : List RbView → ℤ → List RbView
unfolding search_first
find_newer_than h since =
    let start =
      search_first (length h)
        (λ i. elim (get_elem? h i) [ none ↦ true | some v ↦ ltb_ℤ since v.last_updated ]) in
    if nat_beq start (length h) then [] else drop start h

pub should_be_returned : RbView → ℤ → Bool
should_be_returned view since =
    if (since == minus_one && not view.active) || ltb_ℤ view.last_updated since then false else true

-- `copyAndFilterRB`; a clone is the value itself.
pub copy_and_filter : List RbView → ℤ → List RbView
unfolding should_be_returned
copy_and_filter [] since = []
copy_and_filter (v ∷ vs) since =
    let rest = copy_and_filter vs since in if should_be_returned v since then v ∷ rest else rest

unfoldable pub get_updated_since : List RbView → ℤ → List RbView
unfolding find_newer_than copy_and_filter
get_updated_since h since = copy_and_filter (find_newer_than h since) since
