-- ===== src/Storage/Segments/Updates.antt =====
-- An update of a segment, from both ends: how it ends, what the next `ChangesSince` reports, and
-- whether the cache and the disk still agree.
use split_synchronizer.Optimized.MySegments.Membership.{belongs, holds, belongs-update}
use split_synchronizer.Optimized.MySegments.Tidy.{all_text, update_error}
use split_synchronizer.Optimized.MySegments.{Item, text, other}
use split_synchronizer.Persistent.Bolt.{put_failed}
use split_synchronizer.Persistent.Segments.Laws.{
  stored_keys, found_keys, is_nil, has_text, updated_item-keys, updated_item-none,
  lookup-updated_item, fetch-update, update_refused, update_nil, stored_keys-update,
}
use split_synchronizer.Persistent.Segments.{
  SegmentKey, SegmentChangesItem, Gob, SegmentChanges, set_keys, updated_keys, updated_item,
  entries, saved, not_saved, nil_write,
}
use split_synchronizer.Persistent.Segments
use split_synchronizer.Prelude.GoMap.{GoMap, lookup, store, lookup-store}
use split_synchronizer.Prelude.Keys.{contains}
use split_synchronizer.Prelude.Str.{Str, str_eq, str_beq_iff}
use split_synchronizer.Prelude.{
  Bool, true, false, not, ◌&&◌, ◌||◌, Option, none, some, List, [], ◌∷◌, if◌then◌else◌, ◌≡◌, ◌↔◌,
  refl, sym, arith, ◌∙◌, ℤ, inl, inr, Bool-cases, Option-cases, subst, ap,
}
use split_synchronizer.Storage.Segments.Changes.{
  IsKeyed, is_added, is_removed, collect-added, collect-removed,
}
use split_synchronizer.Storage.Segments.{
  SegmentStorage, SegmentChangesDto, changes, collect, changes_since, panicked, outcome, update,
}

store-IsKeyed :
    (k : Str) (entry : SegmentKey) (m : GoMap Str SegmentKey)
    → entry.name ≡ k
    → IsKeyed m
    → IsKeyed (store k entry m)
unfolding store lookup
store-IsKeyed k entry [] e v = (sym e, refl, tt)
store-IsKeyed k entry ((j, i) ∷ m) e v = ground (
  arith,
  store-IsKeyed k entry m e v.2,
  lookup-store k j entry m,
  str_beq_iff j k,
  str_beq_iff k j,
)

set_keys-IsKeyed :
    (cn : ℤ) (removed : Bool) (keys after : Option (GoMap Str SegmentKey)) (items : List Item)
    → set_keys cn removed keys items ≡ some after
    → IsKeyed (entries keys)
    → IsKeyed (entries after)
unfolding set_keys
set_keys-IsKeyed cn removed keys after [] h v = subst (λ o. IsKeyed (entries o)) same v
  where
    same : keys ≡ after
    same = cc
set_keys-IsKeyed cn removed none after (text k ∷ items) h v = cc
set_keys-IsKeyed cn removed (some m) after (text k ∷ items) h v =
    let entry : SegmentKey = record { name = k; change_number = cn; removed = removed } in
    set_keys-IsKeyed cn removed (some (store k entry m)) after items h
      (store-IsKeyed k entry m refl v)
set_keys-IsKeyed cn removed none after (other x ∷ items) h v =
    set_keys-IsKeyed cn removed none after items h v
set_keys-IsKeyed cn removed (some m) after (other x ∷ items) h v =
    set_keys-IsKeyed cn removed (some m) after items h v

updated_keys-IsKeyed :
    (cn : ℤ) (keys after : Option (GoMap Str SegmentKey)) (to_add to_remove : List Item)
    → updated_keys cn keys to_add to_remove ≡ some after
    → IsKeyed (entries keys)
    → IsKeyed (entries after)
unfolding updated_keys
updated_keys-IsKeyed cn keys after to_add to_remove h v =
    elim (Option-cases (set_keys cn true keys to_remove)) [
      | inl e ↦ absurd (ground (arith, e, h))
      | inr (without, e) ↦
          set_keys-IsKeyed cn false without after to_add (ground (arith, e, h))
            (set_keys-IsKeyed cn true keys without to_remove e v)
    ]

-- What the disk holds of a key after an update: an added key is live, also if it is removed too.
abbrev pub entry_after : List Item → List Item → ℤ → Str → Option SegmentKey → Option SegmentKey
entry_after to_add to_remove cn n old =
    if holds n to_add
    then some (record { name = n; change_number = cn; removed = false })
    else (if holds n to_remove
        then some (record { name = n; change_number = cn; removed = true })
        else old)

module _ (gob : Gob) (accepts : Str → Str → Bool) (s : SegmentStorage) (name : Str) where
  -- The keys of the segment on disk.
  abbrev pub disk_keys : GoMap Str SegmentKey
  disk_keys = stored_keys (Segments.fetch gob s.db name)

  module _ (to_add to_remove : List Item) (cn : ℤ) where
    -- Whether the segment gets as far as bolt, and bolt takes its new value.
    abbrev pub is_saved : Bool
    is_saved = elim (updated_item gob s.db name to_add to_remove cn) [
      | none ↦ false
      | some item ↦ accepts name (gob.encode item)
    ]

    -- Whether the update stores a key into the nil map of a segment that did not decode.
    abbrev pub writes_nil : Bool
    writes_nil =
        is_nil (found_keys (Segments.fetch gob s.db name))
        && (has_text to_add || has_text to_remove)

    saved_item :
        is_saved ≡ true
        → (item : SegmentChangesItem) × (updated_item gob s.db name to_add to_remove cn ≡ some item)
          × (accepts name (gob.encode item) ≡ true)
    saved_item t = elim (Option-cases (updated_item gob s.db name to_add to_remove cn)) [
      | inl e ↦ absurd (ground (arith, e, t))
      | inr (item, e) ↦ (item, e, ground (arith, e, t))
    ]

    -- If the keys on disk stand under their own names and the update is saved, `ChangesSince` reports
    -- as added the keys whose last change is later than `since` and left them live, and as removed
    -- those that it removed, unless `since` is negative; the keys of the update count as changed at
    -- its change number, and an added key as live.
    pub changes_since-update :
        (since : ℤ)
        → IsKeyed disk_keys
        → is_saved ≡ true
        → (dto : SegmentChangesDto) × (changes_since gob
              (update gob accepts s name to_add to_remove cn).0
              name
              since
            ≡ changes dto)
          × ((n : Str)
              → (contains n dto.added
                  ≡ is_added since (entry_after to_add to_remove cn n (lookup n disk_keys)))
                × (contains n dto.removed
                    ≡ is_removed since (entry_after to_add to_remove cn n (lookup n disk_keys))))
    unfolding update changes_since contains
    changes_since-update since v t =
        let (item, made, taken) = saved_item t in
        let keys = entries item.keys in
        let keyed : IsKeyed keys =
          updated_keys-IsKeyed cn _ item.keys to_add to_remove
            (updated_item-keys gob accepts s.db name to_add to_remove cn item made) v in
        let dto : SegmentChangesDto =
          collect since keys
            (record { name = name; since = since; till = since; added = []; removed = [] }) in
        (
          dto,
          rw (
            (fetch-update gob accepts s.db name to_add to_remove cn item made taken).1,
            changes_since,
          ),
          λ n. (
            collect-added since keys _ n keyed
                ∙ rw (lookup-updated_item gob accepts s.db name to_add to_remove cn item n made),
            collect-removed since keys _ n keyed
                ∙ rw (lookup-updated_item gob accepts s.db name to_add to_remove cn item n made),
          ),
        )

    stored_end :
        (Segments.update gob accepts s.db name to_add to_remove cn).1
        ≡ (if writes_nil then nil_write else (if is_saved then saved else not_saved put_failed))
    stored_end =
        let none_iff = updated_item-none gob accepts s.db name to_add to_remove cn in
        elim (Option-cases (updated_item gob s.db name to_add to_remove cn)) [
          | inl e ↦ ground (
            arith,
            none_iff,
            ap (λ z. z.1) (update_nil gob accepts s.db name to_add to_remove cn e),
          )
          | inr (item, e) ↦ elim (Bool-cases (accepts name (gob.encode item))) [
            | inl t ↦ ground (
              arith,
              none_iff,
              (fetch-update gob accepts s.db name to_add to_remove cn item e t).0,
            )
            | inr f ↦ ground (
              arith,
              none_iff,
              ap (λ z. z.1) (update_refused gob accepts s.db name to_add to_remove cn item e f),
            )
          ]
        ]

    -- `Update` panics exactly when it stores a key into a nil map, or when one of its two parts fails
    -- and the other does not: either all elements are strings and bolt refuses the value, or some
    -- element is not and bolt takes it.
    pub update_panics : ((update gob accepts s name to_add to_remove cn).1 ≡ panicked) ↔ (
        (writes_nil
          || (all_text to_add && all_text to_remove && not is_saved)
          || (not (all_text to_add && all_text to_remove) && is_saved))
        ≡ true)
    unfolding update outcome
    update_panics = ground (arith, stored_end, update_error s.mysegments name to_add to_remove)

-- The cache and the disk agree on who is in which segment.
abbrev pub is_live : Option SegmentKey → Bool
is_live none = false
is_live (some k) = not k.removed

abbrev pub Agrees : Gob → SegmentStorage → Type 0
Agrees gob s =
    (name key : Str)
    → belongs s.mysegments key name
      ≡ is_live (lookup key (stored_keys (Segments.fetch gob s.db name)))

module _ (gob : Gob) (accepts : Str → Str → Bool) (s : SegmentStorage) (name : Str) where
  module _ (to_add to_remove : List Item) (cn : ℤ) where
    -- An update that is saved, and that adds no key that it removes, keeps the agreement of the cache
    -- and the disk on who is in which segment.
    pub update-Agrees :
        Agrees gob s
        → is_saved gob accepts s name to_add to_remove cn ≡ true
        → ((k : Str) → (holds k to_add && holds k to_remove) ≡ false)
        → Agrees gob (update gob accepts s name to_add to_remove cn).0
    unfolding update
    update-Agrees v t apart seg key =
        let (item, made, taken) = saved_item gob accepts s name to_add to_remove cn t in
        ground (
          arith,
          v seg key,
          apart key,
          belongs-update s.mysegments name to_add to_remove key seg,
          stored_keys-update gob accepts s.db name to_add to_remove cn seg item made taken,
          lookup-updated_item gob accepts s.db name to_add to_remove cn item key made,
          str_beq_iff name seg,
        )

    -- After an update that is saved, a key that is both added and removed is outside the segment in
    -- the cache, and live on the disk.
    pub update_disagrees :
        (k : Str)
        → is_saved gob accepts s name to_add to_remove cn ≡ true
        → holds k to_add ≡ true
        → holds k to_remove ≡ true
        → let after = (update gob accepts s name to_add to_remove cn).0 in
          (belongs after.mysegments k name ≡ false)
          × (is_live (lookup k (stored_keys (Segments.fetch gob after.db name))) ≡ true)
    unfolding update
    update_disagrees k t a r =
        let (item, made, taken) = saved_item gob accepts s name to_add to_remove cn t in
        (
          ground (
            arith,
            belongs-update s.mysegments name to_add to_remove k name,
            str_beq_iff name name,
          ),
          ground (
            arith,
            stored_keys-update gob accepts s.db name to_add to_remove cn name item made taken,
            lookup-updated_item gob accepts s.db name to_add to_remove cn item k made,
            str_beq_iff name name,
          ),
        )
