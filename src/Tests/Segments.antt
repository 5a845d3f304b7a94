-- ===== src/Tests/Segments.antt =====
-- A segment on disk and in the cache, and updates of it.
use split_synchronizer.Optimized.MySegments.Membership.{belongs, holds, belongs-update}
use split_synchronizer.Optimized.MySegments.Tidy.{IsTidy, update-IsTidy}
use split_synchronizer.Optimized.MySegments
use split_synchronizer.Optimized.MySegments.{Item, text, other, MySegments}
use split_synchronizer.Persistent.Bolt.{ok}
use split_synchronizer.Persistent.Segments
use split_synchronizer.Persistent.Segments.{
  SegmentKey, SegmentChangesItem, saved, SegmentChanges, new_segment_changes, updated_item,
}
use split_synchronizer.Persistent.Segments.Laws.{fetch-update}
use split_synchronizer.Prelude.GoMap.{lookup}
use split_synchronizer.Prelude.Str.{str, str_eq, str_compare}
use split_synchronizer.Prelude.{
  not, ◌&&◌, ◌||◌, some, true, false, [], ◌∷◌, if◌then◌else◌, ◌==◌, ◌≡◌, refl, pos,
}
use split_synchronizer.Tests.Params.{gob, takes}

abbrev k1 : Item
k1 = text (str "k1")

abbrev k2 : Item
k2 = text (str "k2")

abbrev cache : MySegments
cache = (str "k1", str "beta" ∷ str "vip" ∷ []) ∷ (str "k2", str "vip" ∷ []) ∷ []

belongs-update_example :
    belongs
      (MySegments.update cache (str "vip") (text (str "k3") ∷ []) (k1 ∷ [])).0
      (str "k1")
      (str "beta")
    ≡ (if str "vip" == str "beta"
        then not (holds (str "k1") (k1 ∷ []))
          && (holds (str "k1") (text (str "k3") ∷ []) || belongs cache (str "k1") (str "beta"))
        else belongs cache (str "k1") (str "beta"))
belongs-update_example =
    belongs-update cache (str "vip") (text (str "k3") ∷ []) (k1 ∷ []) (str "k1") (str "beta")

added-IsTidy : IsTidy (MySegments.update [] (str "vip") (k1 ∷ k2 ∷ []) []).0
unfolding lookup
added-IsTidy =
    update-IsTidy [] (str "vip") (k1 ∷ k2 ∷ []) []
      (record { distinct = tt; listed = λ key l e. cc })

abbrev first_item : SegmentChangesItem
first_item = record {
  name = str "vip";
  keys = some (
      (str "k2", record { name = str "k2"; change_number = pos 5; removed = true })
      ∷ (str "k1", record { name = str "k1"; change_number = pos 5; removed = false })
      ∷ []);
}

first_update :
    updated_item gob new_segment_changes (str "vip") (k1 ∷ []) (k2 ∷ []) (pos 5) ≡ some first_item
unfolding updated_item str_compare
first_update = refl

fetch-update_example :
    let after =
      Segments.update gob takes new_segment_changes (str "vip") (k1 ∷ []) (k2 ∷ []) (pos 5) in
    (after.1 ≡ saved)
    × (Segments.fetch gob after.0 (str "vip") ≡ ok first_item)
    × (Segments.change_number after.0 (str "vip") ≡ pos 5)
fetch-update_example =
    fetch-update gob takes new_segment_changes (str "vip") (k1 ∷ []) (k2 ∷ []) (pos 5) first_item
      first_update refl
