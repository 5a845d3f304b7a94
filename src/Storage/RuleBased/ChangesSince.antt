-- ===== src/Storage/RuleBased/ChangesSince.antt =====
-- What a request for rule-based segments is answered: one entry for each segment that
-- changed.
use split_synchronizer.Optimized.RbHistoric.Laws.{
  IsHistory, view_name, changed_after, rb_get_updated_since-select,
}
use split_synchronizer.Optimized.RbHistoric.{RbView, RuleBasedSegmentDto, get_updated_since}
use split_synchronizer.Prelude.GoMap.{GoMap, lookup, lookup_later, Distinct}
use split_synchronizer.Prelude.Keys.{contains}
use split_synchronizer.Prelude.Named.{
  find_by, find_by-append, DistinctBy, DistinctBy-append, find_by-select, DistinctBy-select,
  All-found,
}
use split_synchronizer.Prelude.Str.{Str, str_eq, str_beq_iff}
use split_synchronizer.Prelude.{
  Bool, false, Option, none, some, List, [], ◌∷◌, ◌++◌, if◌then◌else◌, ◌≡◌, ◌≢◌, refl, arith, ℤ,
  minus_one, ◌≤ℤ◌, select, ◌∙◌, ap,
}
use split_synchronizer.Storage.RuleBased.{
  RbSnapshot, RbStorage, RuleBasedSegmentsDto, rb_changes, archived_rb_dto_for_view, latest,
  names_to_fetch, archived, present, since_is_too_old, changes_since,
}

abbrev is_fetched : Option RbView → Bool
is_fetched none = false
is_fetched (some v) = v.active

contains-names_to_fetch :
    (n : Str) (views : List RbView)
    → DistinctBy view_name views
    → contains n (names_to_fetch views) ≡ is_fetched (find_by view_name n views)
unfolding find_by contains names_to_fetch
contains-names_to_fetch n [] d = refl
contains-names_to_fetch n (v ∷ views) d =
    ground (arith, contains-names_to_fetch n views d.1, str_beq_iff v.name n, str_beq_iff n v.name)

module _ {C : Type 0} where
  abbrev pub dto_name : RuleBasedSegmentDto C → Str
  dto_name d = d.name

  abbrev archived_of : Option RbView → Option (RuleBasedSegmentDto C)
  archived_of none = none
  archived_of (some v) = if v.active then none else some (archived_rb_dto_for_view v)

  find_by-archived :
      (n : Str) (views : List RbView)
      → DistinctBy view_name views
      → find_by dto_name n (archived views) ≡ archived_of (find_by view_name n views)
  unfolding find_by archived archived_rb_dto_for_view
  find_by-archived n [] d = refl
  find_by-archived n (v ∷ views) d =
      ground (arith, find_by-archived n views d.1, str_beq_iff v.name n)

  abbrev flat : Option (Option (RuleBasedSegmentDto C)) → Option (RuleBasedSegmentDto C)
  flat none = none
  flat (some o) = o

  find_by-present :
      (n : Str) (m : GoMap Str (Option (RuleBasedSegmentDto C)))
      → Distinct m
      → ((k : Str) (d : RuleBasedSegmentDto C) → lookup k m ≡ some (some d) → d.name ≡ k)
      → find_by dto_name n (present m) ≡ flat (lookup n m)
  unfolding find_by present lookup
  find_by-present n [] v h = refl
  find_by-present n ((j, none) ∷ m) v h = ground (
    arith,
    find_by-present n m v.1 (λ k d e. h k d (lookup_later j k none (some d) m v e)),
    str_beq_iff j n,
  )
  find_by-present n ((j, some d) ∷ m) v h =
      let named : d.name ≡ j = h j d (ground (arith, str_beq_iff j j)) in
      let later =
        find_by-present n m v.1 (λ k d' e. h k d' (lookup_later j k (some d) (some d') m v e)) in
      ground (arith, later, named, str_beq_iff j n)

  DistinctBy-present :
      (m : GoMap Str (Option (RuleBasedSegmentDto C)))
      → Distinct m
      → ((k : Str) (d : RuleBasedSegmentDto C) → lookup k m ≡ some (some d) → d.name ≡ k)
      → DistinctBy dto_name (present m)
  unfolding present lookup
  DistinctBy-present [] v h = tt
  DistinctBy-present ((j, none) ∷ m) v h =
      DistinctBy-present m v.1 (λ k d e. h k d (lookup_later j k none (some d) m v e))
  DistinctBy-present ((j, some d) ∷ m) v h =
      let named : d.name ≡ j = h j d (ground (arith, str_beq_iff j j)) in
      let later : (k : Str) (d' : RuleBasedSegmentDto C)
          → lookup k m ≡ some (some d')
          → d'.name ≡ k =
        λ k d' e. h k d' (lookup_later j k (some d) (some d') m v e) in
      (
        find_by-present d.name m v.1 later ∙ ground (arith, ap (λ n. lookup n m) named, v.0),
        DistinctBy-present m v.1 later,
      )

DistinctBy-archived :
    (C : Type 0) (views : List RbView)
    → DistinctBy view_name views
    → DistinctBy (dto_name {C = C}) (archived {C = C} views)
unfolding archived archived_rb_dto_for_view
DistinctBy-archived C [] d = tt
DistinctBy-archived C (v ∷ views) d =
    ground (arith, DistinctBy-archived C views d.1, find_by-archived {C = C} v.name views d.1)

-- The entry for a name in the answer to a request.
abbrev pub expected_entry :
    {C S : Type 0} → RbSnapshot C S → S → ℤ → Str → Option RbView → Option (RuleBasedSegmentDto C)
expected_entry snap s since n none = none
expected_entry snap s since n (some v) =
    if changed_after since v
    then (if v.active then snap.by_name s n else some (archived_rb_dto_for_view v))
    else none

module _ {C S : Type 0} (snap : RbSnapshot C S) where
  find_by-present-fetch_many :
      (s : S) (names : List Str) (n : Str)
      → find_by dto_name n (present (snap.fetch_many s names))
        ≡ (if contains n names then snap.by_name s n else none)
  find_by-present-fetch_many s names n =
      find_by-present n (snap.fetch_many s names) (snap.fetch_many-Distinct s names)
        (λ k d e. snap.by_name-name s k d (ground (arith, snap.fetch_many-by_name s names k)))
      ∙ ground (arith, snap.fetch_many-by_name s names n)

  entries :
      (p : RbStorage S) (views : List RbView) (n : Str)
      → DistinctBy view_name views
      → find_by dto_name n
          (archived views ++ present (snap.fetch_many p.snapshot (names_to_fetch views)))
        ≡ elim (find_by view_name n views) [
          | none ↦ none
          | some v ↦
              if v.active then snap.by_name p.snapshot n else some (archived_rb_dto_for_view v)
        ]
  entries p views n d = ground (
    arith,
    find_by-append dto_name n (archived views)
        (present (snap.fetch_many p.snapshot (names_to_fetch views))),
    find_by-archived {C = C} n views d,
    find_by-present-fetch_many p.snapshot (names_to_fetch views) n,
    contains-names_to_fetch n views d,
  )

  -- An archived view is not fetched from the snapshot too.
  DistinctBy-entries :
      (s : S) (views : List RbView)
      → DistinctBy view_name views
      → DistinctBy dto_name (archived views ++ present (snap.fetch_many s (names_to_fetch views)))
  DistinctBy-entries s views d =
      DistinctBy-append dto_name (archived views)
        (present (snap.fetch_many s (names_to_fetch views))) (DistinctBy-archived C views d)
        (DistinctBy-present (snap.fetch_many s (names_to_fetch views))
          (snap.fetch_many-Distinct s (names_to_fetch views))
          (λ k e h.
            snap.by_name-name s k e
              (ground (arith, snap.fetch_many-by_name s (names_to_fetch views) k, h))))
        (All-found dto_name
          (λ n. find_by dto_name n (present (snap.fetch_many s (names_to_fetch views))) ≡ none)
          (archived views)
          (λ n a e. ground (
            arith,
            e,
            find_by-archived {C = C} n views d,
            find_by-present-fetch_many s (names_to_fetch views) n,
            contains-names_to_fetch n views d,
          )))

  -- On a well-formed history, a request from a change number other than -1 that is not too old is
  -- answered with entries that have distinct names: for a rule-based segment whose last change is
  -- later, with the snapshot's one if it is active and the archived form if it is not, and for any
  -- other name with nothing.
  pub rb_changes_since-entries :
      (p : RbStorage S) (since : ℤ)
      → IsHistory p.historic
      → since ≢ minus_one
      → p.oldest_known_cn ≤ℤ since
      → (dto : RuleBasedSegmentsDto C) × (changes_since snap p since ≡ rb_changes dto)
        × DistinctBy dto_name dto.rule_based_segments
        × ((n : Str)
            → find_by dto_name n dto.rule_based_segments
              ≡ expected_entry snap p.snapshot since n (find_by view_name n p.historic))
  unfolding changes_since since_is_too_old
  rb_changes_since-entries p since v ne le = (
    record {
      since = since;
      till = latest since (get_updated_since p.historic since);
      rule_based_segments =
          archived (get_updated_since p.historic since)
          ++ present
              (snap.fetch_many p.snapshot (names_to_fetch (get_updated_since p.historic since)));
    },
    ground arith,
    rw (rb_get_updated_since-select p.historic since v)
        (DistinctBy-entries p.snapshot views distinct),
    λ n. rw (rb_get_updated_since-select p.historic since v) (found n),
  )
    where
      views : List RbView
      views = select (changed_after since) p.historic

      distinct : DistinctBy view_name views
      distinct = DistinctBy-select view_name (changed_after since) p.historic v.distinct

      found :
          (n : Str)
          → find_by dto_name n
              (archived views ++ present (snap.fetch_many p.snapshot (names_to_fetch views)))
            ≡ expected_entry snap p.snapshot since n (find_by view_name n p.historic)
      found n = ground (
        arith,
        entries p views n distinct,
        find_by-select view_name (changed_after since) n p.historic v.distinct,
      )
