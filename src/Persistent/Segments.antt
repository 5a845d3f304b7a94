-- ===== src/Persistent/Segments.antt =====
-- splitio/proxy/storage/persistent/segments.go: the keys of each segment, with the change number at
-- which each was added or removed last, kept in a bolt collection as one gob value for each segment.
pub mod Laws
use split_synchronizer.Optimized.MySegments.{Item, text, other}
use split_synchronizer.Persistent.Bolt.{
  DbError, Result, ok, err, Collection, new_collection, fetch_by, fetch_all, save_as,
}
use split_synchronizer.Prelude.GoMap.{GoMap, lookup, store}
use split_synchronizer.Prelude.Str.{Str, str_eq}
use split_synchronizer.Prelude.{
  Bool, true, false, if◌then◌else◌, Option, none, some, List, [], ◌∷◌, ◌≡◌, ℤ, minus_one,
}

pub record SegmentKey : Type 0 where
  pub name : Str
  pub change_number : ℤ
  pub removed : Bool

-- The map of the keys, or none for a nil map.
pub record SegmentChangesItem : Type 0 where
  pub name : Str
  pub keys : Option (GoMap Str SegmentKey)

abbrev pub new_item : Str → SegmentChangesItem
new_item name = record { name = name; keys = some [] }

-- What a range over the map goes through: nothing, for a nil map.
abbrev pub entries : Option (GoMap Str SegmentKey) → GoMap Str SegmentKey
entries none = []
entries (some m) = m

-- `encoding/gob`, at the type of the items. Decode fills a variable that was zero: what it holds
-- then, and whether there was no error.
pub record Gob : Type 0 where
  pub encode : SegmentChangesItem → Str
  pub decode : Str → SegmentChangesItem × Bool
  pub decode-encode : (item : SegmentChangesItem) → decode (encode item) ≡ (item, true)

pub record SegmentChanges : Type 0 where
  pub collection : Collection
  pub segments_till : GoMap Str ℤ

abbrev pub new_segment_changes : SegmentChanges
new_segment_changes = record { collection = new_collection; segments_till = [] }

-- The loops of `Update`; a store into a nil map is a panic, which is the outer none.
unfoldable pub set_keys :
    ℤ → Bool → Option (GoMap Str SegmentKey) → List Item → Option (Option (GoMap Str SegmentKey))
unfolding store
set_keys cn removed keys [] = some keys
set_keys cn removed none (text k ∷ items) = none
set_keys cn removed (some m) (text k ∷ items) =
    set_keys cn removed
      (some (store k (record { name = k; change_number = cn; removed = removed }) m)) items
set_keys cn removed keys (other _ ∷ items) = set_keys cn removed keys items

-- Both loops, one after the other.
unfoldable pub updated_keys :
    ℤ
    → Option (GoMap Str SegmentKey)
    → List Item
    → List Item
    → Option (Option (GoMap Str SegmentKey))
unfolding set_keys
updated_keys cn keys to_add to_remove = elim (set_keys cn true keys to_remove) [
  | none ↦ none
  | some without ↦ set_keys cn false without to_add
]

-- How `Update` ends, a panic included.
pub data Ended : Type 0 where
  saved : Ended
  not_saved : DbError → Ended
  nil_write : Ended

module _ (gob : Gob) where
  -- `fetch`: the error of a value that does not decode is logged, and what the decoder left
  -- in the variable is returned: the zero item, with its nil map, or what it had read.
  unfoldable pub fetch : SegmentChanges → Str → Result SegmentChangesItem
  unfolding fetch_by
  fetch c name = elim (fetch_by c.collection name) [
    | err e ↦ err e
    | ok bytes ↦ ok (gob.decode bytes).0
  ]

  decode_all : List Str → List SegmentChangesItem
  decode_all [] = []
  decode_all (bytes ∷ rest) =
      let items = decode_all rest in
      if (gob.decode bytes).1 then (gob.decode bytes).0 ∷ items else items

  unfoldable pub fetch_items : SegmentChanges → Result (List SegmentChangesItem)
  unfolding fetch_all decode_all
  fetch_items c = elim (fetch_all c.collection) [
    | err e ↦ err e
    | ok values ↦ ok (decode_all values)
  ]

  -- The item as `Update` stores it, if it comes so far.
  unfoldable pub updated_item :
      SegmentChanges → Str → List Item → List Item → ℤ → Option SegmentChangesItem
  unfolding fetch updated_keys
  updated_item c name to_add to_remove cn = elim (updated_keys cn old.keys to_add to_remove) [
    | none ↦ none
    | some keys ↦ some (record old { keys = keys })
  ]
    where
      old : SegmentChangesItem
      old = elim (fetch c name) [ err e ↦ new_item name | ok item ↦ item ]

  unfoldable pub save_item :
      (Str → Str → Bool) → SegmentChanges → Str → ℤ → SegmentChangesItem → SegmentChanges × Ended
  unfolding save_as store
  save_item accepts c name cn item =
      let written = save_as accepts c.collection name (gob.encode item) in
      elim written.1 [
        | some e ↦ (record c { collection = written.0 }, not_saved e)
        | none ↦ (
          record { collection = written.0; segments_till = store name cn c.segments_till },
          saved,
        )
      ]

  unfoldable pub update :
      (Str → Str → Bool) → SegmentChanges → Str → List Item → List Item → ℤ → SegmentChanges × Ended
  unfolding updated_item save_item
  update accepts c name to_add to_remove cn = elim (updated_item c name to_add to_remove cn) [
    | none ↦ (c, nil_write)
    | some item ↦ save_item accepts c name cn item
  ]

unfoldable pub change_number : SegmentChanges → Str → ℤ
unfolding lookup
change_number c segment = elim (lookup segment c.segments_till) [ none ↦ minus_one | some cn ↦ cn ]

unfoldable pub set_change_number : SegmentChanges → Str → ℤ → SegmentChanges
unfolding store
set_change_number c segment cn = record c { segments_till = store segment cn c.segments_till }
