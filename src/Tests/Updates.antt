-- ===== src/Tests/Updates.antt =====
-- Updates of a segment in all its places.
use split_synchronizer.Optimized.MySegments.Membership.{belongs}
use split_synchronizer.Optimized.MySegments.Tidy.{all_text}
use split_synchronizer.Optimized.MySegments.{Item, text, other, segments_for_user}
use split_synchronizer.Persistent.Bolt.{fetch_by, save_as, new_collection}
use split_synchronizer.Persistent.Segments.Laws.{stored_keys}
use split_synchronizer.Persistent.Segments
use split_synchronizer.Persistent.Segments.{new_segment_changes}
use split_synchronizer.Prelude.GoMap.{lookup}
use split_synchronizer.Prelude.Keys.{contains}
use split_synchronizer.Prelude.Str.{Str, str, str_eq, str_compare}
use split_synchronizer.Prelude.{true, false, not, ◌&&◌, ◌||◌, [], ◌∷◌, ◌≡◌, ◌↔◌, refl, arith, pos}
use split_synchronizer.Storage.Segments.Changes.{is_added, is_removed}
use split_synchronizer.Storage.Segments.Updates.{
  entry_after, is_saved, writes_nil, disk_keys, changes_since-update, update_panics, Agrees,
  update-Agrees, update_disagrees, is_live,
}
use split_synchronizer.Storage.Segments.{
  SegmentStorage, SegmentChangesDto, changes, changes_since, panicked, update,
}
use split_synchronizer.Tests.Params.{gob, takes}

abbrev k1 : Item
k1 = text (str "k1")

abbrev k2 : Item
k2 = text (str "k2")

abbrev empty : SegmentStorage
empty = record { name_count_cache = []; db = new_segment_changes; mysegments = [] }

changes_since-update_example :
    (dto : SegmentChangesDto) × (changes_since gob
        (update gob takes empty (str "vip") (k1 ∷ []) (k2 ∷ []) (pos 5)).0
        (str "vip")
        (pos 2)
      ≡ changes dto)
    × ((n : Str)
        → (contains n dto.added
            ≡ is_added (pos 2) (
                entry_after
                  (k1 ∷ [])
                  (k2 ∷ [])
                  (pos 5)
                  n
                  (lookup n (disk_keys gob takes empty (str "vip")))))
          × (contains n dto.removed
              ≡ is_removed (pos 2) (
                  entry_after
                    (k1 ∷ [])
                    (k2 ∷ [])
                    (pos 5)
                    n
                    (lookup n (disk_keys gob takes empty (str "vip"))))))
unfolding fetch_by Segments.fetch Segments.updated_item
changes_since-update_example =
    changes_since-update gob takes empty (str "vip") (k1 ∷ []) (k2 ∷ []) (pos 5) (pos 2) tt refl

-- A segment whose value does not decode: the first added key is stored into a nil map.
abbrev spoilt : SegmentStorage
spoilt = record empty {
  db = record new_segment_changes { collection = (save_as takes new_collection (str "vip") []).0 };
}

nil_map_panics : (update gob takes spoilt (str "vip") (k1 ∷ []) [] (pos 5)).1 ≡ panicked
unfolding save_as fetch_by Segments.fetch Segments.updated_item Segments.update update str_compare
nil_map_panics = refl

update_panics_example :
    ((update gob takes empty (str "vip") (other (str "3") ∷ []) [] (pos 5)).1 ≡ panicked) ↔ (
      (writes_nil gob takes empty (str "vip") (other (str "3") ∷ []) [] (pos 5)
        || (all_text (other (str "3") ∷ [])
            && all_text []
            && not (is_saved gob takes empty (str "vip") (other (str "3") ∷ []) [] (pos 5)))
        || (not (all_text (other (str "3") ∷ []) && all_text [])
            && is_saved gob takes empty (str "vip") (other (str "3") ∷ []) [] (pos 5)))
      ≡ true)
update_panics_example = update_panics gob takes empty (str "vip") (other (str "3") ∷ []) [] (pos 5)

empty-Agrees : Agrees gob empty
unfolding fetch_by Segments.fetch lookup contains segments_for_user
empty-Agrees name key = refl

update-Agrees_example : Agrees gob (update gob takes empty (str "vip") (k1 ∷ []) [] (pos 5)).0
unfolding Segments.updated_item
update-Agrees_example =
    update-Agrees gob takes empty (str "vip") (k1 ∷ []) [] (pos 5) empty-Agrees refl
      (λ k. ground arith)

update_disagrees_example :
    let after = (update gob takes empty (str "vip") (k1 ∷ []) (k1 ∷ []) (pos 5)).0 in
    (belongs after.mysegments (str "k1") (str "vip") ≡ false)
    × (is_live (lookup (str "k1") (stored_keys (Segments.fetch gob after.db (str "vip")))) ≡ true)
unfolding str_compare Segments.updated_item
update_disagrees_example =
    update_disagrees gob takes empty (str "vip") (k1 ∷ []) (k1 ∷ []) (pos 5) (str "k1") refl refl
      refl
