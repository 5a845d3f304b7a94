-- ===== src/Storage/Splits/ChangesSince.antt =====
-- What a `splitChanges` request is answered: one entry for each flag that changed.
use split_synchronizer.Optimized.Historic.History.{IsHistory, view_name}
use split_synchronizer.Optimized.Historic.Query.{changed_after, get_updated_since_unfiltered}
use split_synchronizer.Optimized.Historic.{FeatureView, SplitDto, get_updated_since}
use split_synchronizer.Prelude.GoMap.{GoMap, lookup, lookup_later, Distinct}
use split_synchronizer.Prelude.Keys.{contains}
use split_synchronizer.Prelude.Named.{
  find_by, find_by-append, DistinctBy, DistinctBy-append, find_by-select, DistinctBy-select,
  All-found,
}
use split_synchronizer.Prelude.Str.{Str, str_eq, str_beq_iff}
use split_synchronizer.Prelude.{
  Bool, false, Option, none, some, List, [], ◌∷◌, ◌++◌, if◌then◌else◌, ◌≡◌, ◌≢◌, refl, arith, ℤ,
  minus_one, ◌≤ℤ◌, select, ◌∙◌, ap,
}
use split_synchronizer.Storage.Splits.{
  Snapshot, SplitStorage, SplitChangesDto, changes, archived_dto_for_view, latest, names_to_fetch,
  archived, present, since_is_too_old, changes_since,
}

abbrev is_fetched : Option FeatureView → Bool
is_fetched none = false
is_fetched (some v) = v.active

contains-names_to_fetch :
    (n : Str) (views : List FeatureView)
    → DistinctBy view_name views
    → contains n (names_to_fetch views) ≡ is_fetched (find_by view_name n views)
unfolding find_by contains names_to_fetch
contains-names_to_fetch n [] d = refl
contains-names_to_fetch n (v ∷ views) d =
    ground (arith, contains-names_to_fetch n views d.1, str_beq_iff v.name n, str_beq_iff n v.name)

module _ {C : Type 0} where
  abbrev pub dto_name : SplitDto C → Str
  dto_name d = d.name

  abbrev archived_of : Option FeatureView → Option (SplitDto C)
  archived_of none = none
  archived_of (some v) = if v.active then none else some (archived_dto_for_view v)

  find_by-archived :
      (n : Str) (views : List FeatureView)
      → DistinctBy view_name views
      → find_by dto_name n (archived views) ≡ archived_of (find_by view_name n views)
  unfolding find_by archived archived_dto_for_view
  find_by-archived n [] d = refl
  find_by-archived n (v ∷ views) d =
      ground (arith, find_by-archived n views d.1, str_beq_iff v.name n)

  abbrev flat : Option (Option (SplitDto C)) → Option (SplitDto C)
  flat none = none
  flat (some o) = o

  find_by-present :
      (n : Str) (m : GoMap Str (Option (SplitDto C)))
      → Distinct m
      → ((k : Str) (d : SplitDto C) → lookup k m ≡ some (some d) → d.name ≡ k)
      → find_by dto_name n (present m) ≡ flat (lookup n m)
  unfolding find_by present lookup
  find_by-present n [] v h = refl
  find_by-present n ((j, none) ∷ m) v h = ground (
    arith,
    find_by-present n m v.1 (λ k d e. h k d (lookup_later j k none (some d) m v e)),
    str_beq_iff j n,
  )
  find_by-present n ((j, some d) ∷ m) v h =
      let named : d.name ≡ j = h j d (ground (arith, str_beq_iff j j)) in
      let later =
        find_by-present n m v.1 (λ k d' e. h k d' (lookup_later j k (some d) (some d') m v e)) in
      ground (arith, later, named, str_beq_iff j n)

  DistinctBy-present :
      (m : GoMap Str (Option (SplitDto C)))
      → Distinct m
      → ((k : Str) (d : SplitDto C) → lookup k m ≡ some (some d) → d.name ≡ k)
      → DistinctBy dto_name (present m)
  unfolding present lookup
  DistinctBy-present [] v h = tt
  DistinctBy-present ((j, none) ∷ m) v h =
      DistinctBy-present m v.1 (λ k d e. h k d (lookup_later j k none (some d) m v e))
  DistinctBy-present ((j, some d) ∷ m) v h =
      let named : d.name ≡ j = h j d (ground (arith, str_beq_iff j j)) in
      let later : (k : Str) (d' : SplitDto C) → lookup k m ≡ some (some d') → d'.name ≡ k =
        λ k d' e. h k d' (lookup_later j k (some d) (some d') m v e) in
      (
        find_by-present d.name m v.1 later ∙ ground (arith, ap (λ n. lookup n m) named, v.0),
        DistinctBy-present m v.1 later,
      )

DistinctBy-archived :
    (C : Type 0) (views : List FeatureView)
    → DistinctBy view_name views
    → DistinctBy (dto_name {C = C}) (archived {C = C} views)
unfolding archived archived_dto_for_view
DistinctBy-archived C [] d = tt
DistinctBy-archived C (v ∷ views) d =
    ground (arith, DistinctBy-archived C views d.1, find_by-archived {C = C} v.name views d.1)

-- The entry for a name in the answer to a request with no set filter.
abbrev pub expected_entry :
    {C S : Type 0} → Snapshot C S → S → ℤ → Str → Option FeatureView → Option (SplitDto C)
expected_entry snap s since n none = none
expected_entry snap s since n (some v) =
    if changed_after since v
    then (if v.active then snap.split s n else some (archived_dto_for_view v))
    else none

module _ {C S : Type 0} (snap : Snapshot C S) where
  find_by-present-fetch_many :
      (s : S) (names : List Str) (n : Str)
      → find_by dto_name n (present (snap.fetch_many s names))
        ≡ (if contains n names then snap.split s n else none)
  find_by-present-fetch_many s names n =
      find_by-present n (snap.fetch_many s names) (snap.fetch_many-Distinct s names)
        (λ k d e. snap.split-name s k d (ground (arith, snap.fetch_many-split s names k)))
      ∙ ground (arith, snap.fetch_many-split s names n)

  entries :
      (p : SplitStorage S) (views : List FeatureView) (n : Str)
      → DistinctBy view_name views
      → find_by dto_name n
          (archived views ++ present (snap.fetch_many p.snapshot (names_to_fetch views)))
        ≡ elim (find_by view_name n views) [
          | none ↦ none
          | some v ↦ if v.active then snap.split p.snapshot n else some (archived_dto_for_view v)
        ]
  entries p views n d = ground (
    arith,
    find_by-append dto_name n (archived views)
        (present (snap.fetch_many p.snapshot (names_to_fetch views))),
    find_by-archived {C = C} n views d,
    find_by-present-fetch_many p.snapshot (names_to_fetch views) n,
    contains-names_to_fetch n views d,
  )

  -- An archived view is not fetched from the snapshot too.
  DistinctBy-entries :
      (s : S) (views : List FeatureView)
      → DistinctBy view_name views
      → DistinctBy dto_name (archived views ++ present (snap.fetch_many s (names_to_fetch views)))
  DistinctBy-entries s views d =
      DistinctBy-append dto_name (archived views)
        (present (snap.fetch_many s (names_to_fetch views))) (DistinctBy-archived C views d)
        (DistinctBy-present (snap.fetch_many s (names_to_fetch views))
          (snap.fetch_many-Distinct s (names_to_fetch views))
          (λ k e h.
            snap.split-name s k e
              (ground (arith, snap.fetch_many-split s (names_to_fetch views) k, h))))
        (All-found dto_name
          (λ n. find_by dto_name n (present (snap.fetch_many s (names_to_fetch views))) ≡ none)
          (archived views)
          (λ n a e. ground (
            arith,
            e,
            find_by-archived {C = C} n views d,
            find_by-present-fetch_many s (names_to_fetch views) n,
            contains-names_to_fetch n views d,
          )))

  -- On a well-formed history, a request with no set filter, from a change number other than -1 that is
  -- not too old, is answered with entries that have distinct names: for a flag whose last change is
  -- later, with the snapshot's flag if it is active and the archived form if it is not, and for any
  -- other name with nothing.
  pub changes_since-entries :
      (p : SplitStorage S) (since : ℤ)
      → IsHistory p.historic
      → since ≢ minus_one
      → p.oldest_known_cn ≤ℤ since
      → (dto : SplitChangesDto C) × (changes_since snap p since [] ≡ changes dto)
        × DistinctBy dto_name dto.splits
        × ((n : Str)
            → find_by dto_name n dto.splits
              ≡ expected_entry snap p.snapshot since n (find_by view_name n p.historic))
  unfolding changes_since since_is_too_old
  changes_since-entries p since v ne le = (
    record {
      since = since;
      till = latest since (get_updated_since p.historic since []);
      splits =
          archived (get_updated_since p.historic since [])
          ++ present
              (snap.fetch_many p.snapshot (names_to_fetch (get_updated_since p.historic since [])));
    },
    ground arith,
    rw (get_updated_since_unfiltered p.historic since v)
        (DistinctBy-entries p.snapshot views distinct),
    λ n. rw (get_updated_since_unfiltered p.historic since v) (found n),
  )
    where
      views : List FeatureView
      views = select (changed_after since) p.historic

      distinct : DistinctBy view_name views
      distinct = DistinctBy-select view_name (changed_after since) p.historic v.distinct

      found :
          (n : Str)
          → find_by dto_name n
              (archived views ++ present (snap.fetch_many p.snapshot (names_to_fetch views)))
            ≡ expected_entry snap p.snapshot since n (find_by view_name n p.historic)
      found n = ground (
        arith,
        entries p views n distinct,
        find_by-select view_name (changed_after since) n p.historic v.distinct,
      )
