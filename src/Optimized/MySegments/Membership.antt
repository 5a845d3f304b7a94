-- ===== src/Optimized/MySegments/Membership.antt =====
-- Which segments a key belongs to after an update, and what every update keeps.
use split_synchronizer.Optimized.MySegments.{
  Item, text, other, MySegments, segments_for_user, add_segment_to_user, without,
  remove_segment_for_user, add_all, remove_all, update,
}
use split_synchronizer.Prelude.GoMap.{lookup, lookup-store, lookup-delete}
use split_synchronizer.Prelude.Keys.{contains, contains-append}
use split_synchronizer.Prelude.Str.{Str, str_eq, str_beq_iff}
use split_synchronizer.Prelude.{
  Bool, false, not, ◌&&◌, ◌||◌, List, [], ◌∷◌, ◌++◌, if◌then◌else◌, ◌==◌, ◌≡◌, refl, arith,
  Option-cases, inl, inr,
}

-- Whether the key belongs to the segment.
abbrev pub belongs : MySegments → Str → Str → Bool
belongs m key segment = contains segment (segments_for_user m key)

-- Whether a set of elements holds the key.
abbrev pub holds : Str → List Item → Bool
holds key [] = false
holds key (text k ∷ items) = k == key || holds key items
holds key (other _ ∷ items) = holds key items

pub contains-without :
    (n segment : Str) (segments : List Str)
    → contains n (without segment segments) ≡ (contains n segments && not (n == segment))
unfolding contains without
contains-without n segment [] = refl
contains-without n segment (s ∷ segments) = ground (
  arith,
  contains-without n segment segments,
  str_beq_iff s segment,
  str_beq_iff n s,
  str_beq_iff n segment,
)

belongs-add_segment_to_user :
    (m : MySegments) (k name key segment : Str)
    → belongs (add_segment_to_user m k name) key segment
      ≡ ((k == key && name == segment) || belongs m key segment)
unfolding add_segment_to_user segments_for_user contains
belongs-add_segment_to_user m k name key segment = elim (Option-cases (lookup k m)) [
  | inl e ↦ ground (
    arith,
    lookup-store k key (name ∷ []) m,
    str_beq_iff k key,
    str_beq_iff segment name,
    str_beq_iff name segment,
  )
  | inr (l, e) ↦ ground (
    arith,
    lookup-store k key (l ++ name ∷ []) m,
    contains-append segment l (name ∷ []),
    str_beq_iff k key,
    str_beq_iff segment name,
    str_beq_iff name segment,
  )
]

belongs-remove_segment_for_user :
    (m : MySegments) (k name key segment : Str)
    → belongs (remove_segment_for_user m k name) key segment
      ≡ (not (k == key && name == segment) && belongs m key segment)
unfolding remove_segment_for_user segments_for_user contains
belongs-remove_segment_for_user m k name key segment = elim (Option-cases (lookup k m)) [
  | inl e ↦ ground (arith, str_beq_iff k key)
  | inr (l, e) ↦ ground (
    arith,
    lookup-delete k key m,
    lookup-store k key (without name l) m,
    contains-without segment name l,
    str_beq_iff k key,
    str_beq_iff segment name,
    str_beq_iff name segment,
  )
]

belongs-add_all :
    (m : MySegments) (name : Str) (items : List Item) (key segment : Str)
    → belongs (add_all m name items) key segment
      ≡ ((holds key items && name == segment) || belongs m key segment)
unfolding add_all
belongs-add_all m name [] key segment = refl
belongs-add_all m name (text k ∷ items) key segment = ground (
  arith,
  belongs-add_all (add_segment_to_user m k name) name items key segment,
  belongs-add_segment_to_user m k name key segment,
)
belongs-add_all m name (other v ∷ items) key segment = belongs-add_all m name items key segment

belongs-remove_all :
    (m : MySegments) (name : Str) (items : List Item) (key segment : Str)
    → belongs (remove_all m name items) key segment
      ≡ (not (holds key items && name == segment) && belongs m key segment)
unfolding remove_all
belongs-remove_all m name [] key segment = refl
belongs-remove_all m name (text k ∷ items) key segment = ground (
  arith,
  belongs-remove_all (remove_segment_for_user m k name) name items key segment,
  belongs-remove_segment_for_user m k name key segment,
)
belongs-remove_all m name (other v ∷ items) key segment =
    belongs-remove_all m name items key segment

-- An update changes the memberships in its own segment only: the removed keys leave it, also those
-- that are added too, the added keys join it, and all others stay.
pub belongs-update :
    (m : MySegments) (name : Str) (to_add to_remove : List Item) (key segment : Str)
    → belongs (update m name to_add to_remove).0 key segment ≡ (
        if name == segment
        then not (holds key to_remove) && (holds key to_add || belongs m key segment)
        else belongs m key segment)
unfolding update
belongs-update m name to_add to_remove key segment = ground (
  arith,
  belongs-remove_all (add_all m name to_add) name to_remove key segment,
  belongs-add_all m name to_add key segment,
)
