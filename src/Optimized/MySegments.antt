-- ===== src/Optimized/MySegments.antt =====
-- splitio/proxy/storage/optimized/mysegments.go: from each key to the segments that it belongs to.
-- The sets of the toolkit are slices of their elements, which may be of any Go type.
pub mod Membership
pub mod Tidy
use split_synchronizer.Prelude.GoMap.{GoMap, lookup, store, delete}
use split_synchronizer.Prelude.Keys.{contains}
use split_synchronizer.Prelude.Str.{Str, str_eq}
use split_synchronizer.Prelude.{
  ℕ, Bool, true, false, ◌||◌, Option, none, some, List, [], ◌∷◌, ◌++◌, if◌then◌else◌, length, ◌==◌,
}

-- An element of a `set.ThreadUnsafeSet`: a string, or another value as the error message prints it.
pub data Item : Type 0 where
  text : Str → Item
  other : Str → Item

abbrev pub MySegments : Type 0
MySegments = GoMap Str (List Str)

-- The error of `Update`: the added and the removed elements that are no strings.
pub record InvalidKeys : Type 0 where
  pub invalid_added : List Str
  pub invalid_removed : List Str

unfoldable pub key_count : MySegments → ℕ
key_count m = length m

unfoldable pub segments_for_user : MySegments → Str → List Str
unfolding lookup
segments_for_user m key = elim (lookup key m) [ none ↦ [] | some segments ↦ segments ]

-- `isInSegment` is `contains`.
pub add_segment_to_user : MySegments → Str → Str → MySegments
unfolding lookup store contains
add_segment_to_user m key segment = elim (lookup key m) [
  | none ↦ store key (segment ∷ []) m
  | some segments ↦ if contains segment segments then m else store key (segments ++ segment ∷ []) m
]

-- The loop that copies the other segments.
pub without : Str → List Str → List Str
without segment [] = []
without segment (s ∷ segments) =
    let rest = without segment segments in if s == segment then rest else s ∷ rest

pub remove_segment_for_user : MySegments → Str → Str → MySegments
unfolding lookup store delete without
remove_segment_for_user m key segment = elim (lookup key m) [
  | none ↦ m
  | some segments ↦ elim (without segment segments) [
    | [] ↦ delete key m
    | s ∷ rest ↦ store key (s ∷ rest) m
  ]
]

pub add_all : MySegments → Str → List Item → MySegments
unfolding add_segment_to_user
add_all m name [] = m
add_all m name (text key ∷ items) = add_all (add_segment_to_user m key name) name items
add_all m name (other _ ∷ items) = add_all m name items

pub remove_all : MySegments → Str → List Item → MySegments
unfolding remove_segment_for_user
remove_all m name [] = m
remove_all m name (text key ∷ items) = remove_all (remove_segment_for_user m key name) name items
remove_all m name (other _ ∷ items) = remove_all m name items

pub invalid : List Item → List Str
invalid [] = []
invalid (text key ∷ items) = invalid items
invalid (other v ∷ items) = v ∷ invalid items

-- The cache after the call, and the error if one is returned.
unfoldable pub update : MySegments → Str → List Item → List Item → MySegments × Option InvalidKeys
unfolding add_all remove_all invalid
update m name to_add to_remove = (remove_all (add_all m name to_add) name to_remove, report)
  where
    added : List Str
    added = invalid to_add

    removed : List Str
    removed = invalid to_remove

    failure : Option InvalidKeys
    failure = some (record { invalid_added = added; invalid_removed = removed })

    report : Option InvalidKeys
    report = elim added [ [] ↦ elim removed [ [] ↦ none | _ ↦ failure ] | _ ↦ failure ]
