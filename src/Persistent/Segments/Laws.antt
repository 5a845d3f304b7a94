-- ===== src/Persistent/Segments/Laws.antt =====
-- What an update leaves of each key of the segment, and what is read back.
use split_synchronizer.Optimized.MySegments.{Item, text, other}
use split_synchronizer.Optimized.MySegments.Membership.{holds}
use split_synchronizer.Persistent.Bolt.Laws.{fetch_by-save_as}
use split_synchronizer.Persistent.Bolt.{
  fetch_by, bucket_or_new, Result, ok, err, save_as, put_failed,
}
use split_synchronizer.Persistent.Segments.{
  SegmentKey, SegmentChangesItem, entries, Gob, SegmentChanges, set_keys, updated_keys, fetch,
  updated_item, save_item, update, change_number, saved, not_saved, nil_write,
}
use split_synchronizer.Prelude.GoMap.{GoMap, lookup, store, lookup-store}
use split_synchronizer.Prelude.Str.{Str, str_eq, str_beq_iff}
use split_synchronizer.Prelude.{
  Bool, true, false, ◌&&◌, ◌||◌, Option, Option-cases, inl, inr, none, some, ◌↔◌, List, [], ◌∷◌,
  if◌then◌else◌, ◌==◌, ◌≡◌, refl, arith, ℤ,
}

pub lookup-set_keys :
    (cn : ℤ) (removed : Bool) (keys after : Option (GoMap Str SegmentKey)) (items : List Item)
    (k : Str)
    → set_keys cn removed keys items ≡ some after
    → lookup k (entries after) ≡ (
        if holds k items
        then some (record { name = k; change_number = cn; removed = removed })
        else lookup k (entries keys))
unfolding set_keys
lookup-set_keys cn removed keys after [] k h = ground arith
lookup-set_keys cn removed none after (text j ∷ items) k h = cc
lookup-set_keys cn removed (some m) after (text j ∷ items) k h =
    let entry : SegmentKey = record { name = j; change_number = cn; removed = removed } in
    ground (
      arith,
      lookup-set_keys cn removed (some (store j entry m)) after items k h,
      lookup-store j k entry m,
      str_beq_iff j k,
    )
lookup-set_keys cn removed none after (other v ∷ items) k h =
    lookup-set_keys cn removed none after items k h
lookup-set_keys cn removed (some m) after (other v ∷ items) k h =
    lookup-set_keys cn removed (some m) after items k h

-- Some element of the set is a string.
abbrev pub has_text : List Item → Bool
has_text [] = false
has_text (text k ∷ items) = true
has_text (other v ∷ items) = has_text items

-- The loop goes through on a map, and on a nil map if it has nothing to store.
pub set_keys_map :
    (cn : ℤ) (removed : Bool) (m : GoMap Str SegmentKey) (items : List Item)
    → (after : GoMap Str SegmentKey) × (set_keys cn removed (some m) items ≡ some (some after))
unfolding set_keys
set_keys_map cn removed m [] = (m, refl)
set_keys_map cn removed m (text k ∷ items) =
    set_keys_map cn removed (store k (record { name = k; change_number = cn; removed = removed }) m)
      items
set_keys_map cn removed m (other v ∷ items) = set_keys_map cn removed m items

pub set_keys_nil :
    (cn : ℤ) (removed : Bool) (items : List Item)
    → set_keys cn removed none items ≡ (if has_text items then none else some none)
unfolding set_keys
set_keys_nil cn removed [] = refl
set_keys_nil cn removed (text k ∷ items) = refl
set_keys_nil cn removed (other v ∷ items) = set_keys_nil cn removed items

-- The keys of a segment as `Update` finds them: a new map if it cannot be read, and maybe a nil map where
-- the value in the database does not decode.
abbrev pub found_keys : Result SegmentChangesItem → Option (GoMap Str SegmentKey)
found_keys (ok item) = item.keys
found_keys (err e) = some []

abbrev pub is_nil : Option (GoMap Str SegmentKey) → Bool
is_nil none = true
is_nil (some m) = false

abbrev pub stored_keys : Result SegmentChangesItem → GoMap Str SegmentKey
stored_keys r = entries (found_keys r)

lookup-updated_keys :
    (cn : ℤ) (keys after : Option (GoMap Str SegmentKey)) (to_add to_remove : List Item) (k : Str)
    → updated_keys cn keys to_add to_remove ≡ some after
    → lookup k (entries after) ≡ (
        if holds k to_add
        then some (record { name = k; change_number = cn; removed = false })
        else (if holds k to_remove
            then some (record { name = k; change_number = cn; removed = true })
            else lookup k (entries keys)))
unfolding updated_keys
lookup-updated_keys cn keys after to_add to_remove k h =
    elim (Option-cases (set_keys cn true keys to_remove)) [
      | inl e ↦ cc
      | inr (without, e) ↦ ground (
        arith,
        lookup-set_keys cn true keys without to_remove k e,
        lookup-set_keys cn false without after to_add k,
      )
    ]

updated_keys-none :
    (cn : ℤ) (keys : Option (GoMap Str SegmentKey)) (to_add to_remove : List Item)
    → (updated_keys cn keys to_add to_remove ≡ none)
      ↔ ((is_nil keys && (has_text to_add || has_text to_remove)) ≡ true)
unfolding updated_keys
updated_keys-none cn none to_add to_remove =
    ground (arith, set_keys_nil cn true to_remove, set_keys_nil cn false to_add)
updated_keys-none cn (some m) to_add to_remove =
    let (without, e) = set_keys_map cn true m to_remove in
    let (after, f) = set_keys_map cn false without to_add in ground (arith, e, f)

module _ (gob : Gob) (accepts : Str → Str → Bool) where
  -- The item that an update stores holds each added key as live and each other removed key as removed,
  -- both at the change number of the update, and the other keys as they were.
  -- What an update finds and what it leaves, in terms of the keys.
  pub updated_item-keys :
      (c : SegmentChanges) (name : Str) (to_add to_remove : List Item) (cn : ℤ)
      (item : SegmentChangesItem)
      → updated_item gob c name to_add to_remove cn ≡ some item
      → updated_keys cn (found_keys (fetch gob c name)) to_add to_remove ≡ some item.keys
  unfolding updated_item
  updated_item-keys c name to_add to_remove cn item h = ground arith

  pub lookup-updated_item :
      (c : SegmentChanges) (name : Str) (to_add to_remove : List Item) (cn : ℤ)
      (item : SegmentChangesItem) (k : Str)
      → updated_item gob c name to_add to_remove cn ≡ some item
      → lookup k (entries item.keys) ≡ (
          if holds k to_add
          then some (record { name = k; change_number = cn; removed = false })
          else (if holds k to_remove
              then some (record { name = k; change_number = cn; removed = true })
              else lookup k (stored_keys (fetch gob c name))))
  lookup-updated_item c name to_add to_remove cn item k h =
      lookup-updated_keys cn (found_keys (fetch gob c name)) item.keys to_add to_remove k
        (updated_item-keys c name to_add to_remove cn item h)

  -- An update panics exactly when it stores a key into a nil map.
  pub updated_item-none :
      (c : SegmentChanges) (name : Str) (to_add to_remove : List Item) (cn : ℤ)
      → (updated_item gob c name to_add to_remove cn ≡ none) ↔ (
          (is_nil (found_keys (fetch gob c name)) && (has_text to_add || has_text to_remove))
          ≡ true)
  unfolding updated_item
  updated_item-none c name to_add to_remove cn =
      ground (arith, updated_keys-none cn (found_keys (fetch gob c name)) to_add to_remove)

  -- If an update does not panic and bolt takes the value, the update reports no error, and the segment
  -- is read back as it was stored and has the change number of the update.
  pub fetch-update :
      (c : SegmentChanges) (name : Str) (to_add to_remove : List Item) (cn : ℤ)
      (item : SegmentChangesItem)
      → updated_item gob c name to_add to_remove cn ≡ some item
      → accepts name (gob.encode item) ≡ true
      → let after = update gob accepts c name to_add to_remove cn in
        (after.1 ≡ saved) × (fetch gob after.0 name ≡ ok item) × (change_number after.0 name ≡ cn)
  unfolding update save_item fetch change_number
  fetch-update c name to_add to_remove cn item made t =
      let (written, read) = fetch_by-save_as accepts c.collection name (gob.encode item) name in
      (
        ground (arith, made),
        ground (arith, made, gob.decode-encode item, str_beq_iff name name),
        ground (arith, made, lookup-store name name cn c.segments_till, str_beq_iff name name),
      )

  -- If bolt refuses the value, the update reports it and changes nothing.
  pub update_refused :
      (c : SegmentChanges) (name : Str) (to_add to_remove : List Item) (cn : ℤ)
      (item : SegmentChangesItem)
      → updated_item gob c name to_add to_remove cn ≡ some item
      → accepts name (gob.encode item) ≡ false
      → update gob accepts c name to_add to_remove cn ≡ (c, not_saved put_failed)
  unfolding update save_item save_as
  update_refused c name to_add to_remove cn item made f = ground arith

  -- An update that would store a key into a nil map panics before it changes anything.
  pub update_nil :
      (c : SegmentChanges) (name : Str) (to_add to_remove : List Item) (cn : ℤ)
      → updated_item gob c name to_add to_remove cn ≡ none
      → update gob accepts c name to_add to_remove cn ≡ (c, nil_write)
  unfolding update
  update_nil c name to_add to_remove cn e = ground arith

  -- A key that is not in the bucket reads as no keys, whether or not there is a bucket yet.
  stored_keys_kept :
      (c : SegmentChanges) (seg : Str)
      → stored_keys (fetch gob c seg) ≡ elim (lookup seg (bucket_or_new c.collection)) [
        | none ↦ []
        | some bytes ↦ entries (gob.decode bytes).0.keys
      ]
  unfolding fetch fetch_by bucket_or_new lookup
  stored_keys_kept c seg = ground arith

  -- The keys that are read of any segment after an update that is saved.
  pub stored_keys-update :
      (c : SegmentChanges) (name : Str) (to_add to_remove : List Item) (cn : ℤ) (seg : Str)
      (item : SegmentChangesItem)
      → updated_item gob c name to_add to_remove cn ≡ some item
      → accepts name (gob.encode item) ≡ true
      → stored_keys (fetch gob (update gob accepts c name to_add to_remove cn).0 seg)
        ≡ (if name == seg then entries item.keys else stored_keys (fetch gob c seg))
  unfolding update save_item fetch
  stored_keys-update c name to_add to_remove cn seg item made t =
      let (written, read) = fetch_by-save_as accepts c.collection name (gob.encode item) seg in
      ground (arith, made, gob.decode-encode item, stored_keys_kept c seg)
