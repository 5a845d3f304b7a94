-- ===== src/Storage/Segments.antt =====
-- splitio/proxy/storage/segments.go: the segments of the proxy, in three places that each update
-- writes: the cache from keys to segments, the collection on disk, and the counts.
pub mod Changes
pub mod Updates
use split_synchronizer.Observability.SegmentTracker.{ActiveSegments}
use split_synchronizer.Observability.SegmentTracker
use split_synchronizer.Optimized.MySegments
use split_synchronizer.Optimized.MySegments.{Item, text, other, MySegments, InvalidKeys}
use split_synchronizer.Persistent.Bolt.{
  DbError, bucket_not_found, key_not_found, put_failed, invalid_id, Result, ok, err,
}
use split_synchronizer.Persistent.Segments
use split_synchronizer.Persistent.Segments.{
  SegmentKey, SegmentChangesItem, entries, Gob, SegmentChanges, new_segment_changes, Ended, saved,
  not_saved, nil_write,
}
use split_synchronizer.Prelude.GoMap.{GoMap}
use split_synchronizer.Prelude.Str.{Str}
use split_synchronizer.Prelude.{
  ℕ, suc, Bool, true, false, not, ◌&&◌, ◌||◌, Option, none, some, List, [], ◌∷◌, ◌++◌, map,
  if◌then◌else◌, length, ℤ, pos, ltb_ℤ,
}

pub record SegmentStorage : Type 0 where
  pub name_count_cache : ActiveSegments
  pub db : SegmentChanges
  pub mysegments : MySegments

-- The DTO that answers a `segmentChanges` request.
pub record SegmentChangesDto : Type 0 where
  pub name : Str
  pub since : ℤ
  pub till : ℤ
  pub added : List Str
  pub removed : List Str

pub data FetchError : Type 0 where
  segment_not_found : FetchError
  unexpected : DbError → FetchError

pub data Fetched : Type 0 where
  changes : SegmentChangesDto → Fetched
  failed : FetchError → Fetched

-- One round of the loop of `ChangesSince`.
pub collect_key : ℤ → SegmentKey → SegmentChangesDto → SegmentChangesDto
collect_key since k dto =
    let listed =
      if k.removed
      then record dto { removed = dto.removed ++ k.name ∷ [] }
      else record dto { added = dto.added ++ k.name ∷ [] } in
    let dated = record listed {
      till = if ltb_ℤ dto.till k.change_number then k.change_number else dto.till;
    } in
    if not (ltb_ℤ since k.change_number) || (k.removed && ltb_ℤ since (pos 0)) then dto else dated

-- The loop; the entries of the map come in some order.
pub collect : ℤ → List (Str × SegmentKey) → SegmentChangesDto → SegmentChangesDto
unfolding collect_key
collect since [] dto = dto
collect since ((_, k) ∷ rest) dto = collect since rest (collect_key since k dto)

module _ (gob : Gob) where
  unfoldable pub changes_since : SegmentStorage → Str → ℤ → Fetched
  unfolding collect
  changes_since s name since = elim (Segments.fetch gob s.db name) [
    | err bucket_not_found ↦ failed segment_not_found
    | err key_not_found ↦ failed segment_not_found
    | err put_failed ↦ failed (unexpected put_failed)
    | err invalid_id ↦ failed (unexpected invalid_id)
    | ok item ↦ changes (
        collect since (entries item.keys)
          (record { name = name; since = since; till = since; added = []; removed = [] }))
  ]

  -- The loop of `CountRemovedKeys`; the change number that it also computes is not used.
  pub count_removed : List (Str × SegmentKey) → ℕ
  count_removed [] = 0
  count_removed ((_, k) ∷ rest) = let n = count_removed rest in if k.removed then suc n else n

  unfoldable pub count_removed_keys : SegmentStorage → Str → ℕ
  unfolding count_removed
  count_removed_keys s name = elim (Segments.fetch gob s.db name) [
    | err e ↦ 0
    | ok item ↦ count_removed (entries item.keys)
  ]

  -- `Keys` puts the map's values into the set, not the names of the keys.
  unfoldable pub keys : SegmentStorage → Str → List SegmentKey
  keys s name = elim (Segments.fetch gob s.db name) [
    | err e ↦ []
    | ok item ↦ map (λ e. e.1) (entries item.keys)
  ]

  -- How `Update` ends: a method call on a nil error is a panic, and so is a store into the nil map of
  -- a segment that did not decode.
  pub data Outcome : Type 0 where
    done : Outcome
    update_failed : InvalidKeys → DbError → Outcome
    panicked : Outcome

  outcome : Option InvalidKeys → Ended → Outcome
  outcome invalid nil_write = panicked
  outcome none saved = done
  outcome none (not_saved e) = panicked
  outcome (some i) saved = panicked
  outcome (some i) (not_saved e) = update_failed i e

  counted : Outcome → ActiveSegments → ActiveSegments → ActiveSegments
  counted done new old = new
  counted _ new old = old

  unfoldable pub update :
      (Str → Str → Bool)
      → SegmentStorage
      → Str
      → List Item
      → List Item
      → ℤ
      → SegmentStorage × Outcome
  unfolding outcome counted
  update accepts s name to_add to_remove cn =
      let cached = MySegments.update s.mysegments name to_add to_remove in
      let stored = Segments.update gob accepts s.db name to_add to_remove cn in
      let end = outcome cached.1 stored.1 in
      (
        record {
          name_count_cache =
              counted end
                (SegmentTracker.update s.name_count_cache name (length to_add) (length to_remove))
                s.name_count_cache;
          db = stored.0;
          mysegments = cached.0;
        },
        end,
      )

  -- The keys of a stored segment that are not removed.
  pub live_items : List (Str × SegmentKey) → List Item
  live_items [] = []
  live_items ((_, k) ∷ rest) =
      let items = live_items rest in if k.removed then items else text k.name ∷ items

  pub populate : List SegmentChangesItem → SegmentStorage → SegmentStorage
  unfolding live_items
  populate [] s = s
  populate (item ∷ all) s = populate all (record s {
    mysegments = (MySegments.update s.mysegments item.name (live_items (entries item.keys)) []).0;
    name_count_cache =
        SegmentTracker.update s.name_count_cache item.name (length (live_items (entries item.keys)))
          0;
  })

  -- `NewProxySegmentStorage`, on a database that holds this collection.
  unfoldable pub new_segment_storage : SegmentChanges → Bool → SegmentStorage
  unfolding populate
  new_segment_storage disk restore =
      let empty : SegmentStorage = record { name_count_cache = []; db = disk; mysegments = [] } in
      if restore
      then elim (Segments.fetch_items gob disk) [ err e ↦ empty | ok all ↦ populate all empty ]
      else empty

unfoldable pub segments_for : SegmentStorage → Str → List Str
segments_for s key = MySegments.segments_for_user s.mysegments key

unfoldable pub segment_keys_count : SegmentStorage → ℕ
segment_keys_count s = MySegments.key_count s.mysegments

unfoldable pub change_number : SegmentStorage → Str → ℤ
change_number s segment = Segments.change_number s.db segment

unfoldable pub set_change_number : SegmentStorage → Str → ℤ → SegmentStorage
set_change_number s segment cn = record s { db = Segments.set_change_number s.db segment cn }
