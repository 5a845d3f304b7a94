-- ===== src/Storage/RuleBased.antt =====
-- splitio/proxy/storage/rulebasedsegments.go: the rule-based segments of the proxy, as a snapshot of
-- the latest configuration and the history of changes. The snapshot is the in-memory storage of
-- go-split-commons, which is not in the repository: a parameter, with its state type `S`. A mutex
-- makes each method that writes one step.
pub mod ChangesSince
use split_synchronizer.Optimized.RbHistoric
use split_synchronizer.Optimized.RbHistoric.{RbView, RuleBasedSegmentDto, active_status}
use split_synchronizer.Persistent.Bolt.{ok, err}
use split_synchronizer.Persistent.RuleBased
use split_synchronizer.Persistent.RuleBased.{RbCodec, RbChanges}
use split_synchronizer.Prelude.GoMap.{GoMap, lookup, Distinct}
use split_synchronizer.Prelude.Keys.{contains}
use split_synchronizer.Prelude.Str.{Str, str, str_eq}
use split_synchronizer.Prelude.{
  Bool, true, false, ◌&&◌, ◌||◌, Option, none, some, List, [], ◌∷◌, ◌++◌, if◌then◌else◌, ◌==◌, ◌≡◌,
  ℤ, ltb_ℤ, int_eq, minus_one,
}

-- `mutexmap.RuleBasedSegmentsStorageImpl`, as this code uses it.
pub record RbSnapshot (C S : Type 0) : Type 0 where
  pub empty : S
  -- `none` is an error.
  pub change_number : S → Option ℤ
  pub all : S → List (RuleBasedSegmentDto C)
  pub by_name : S → Str → Option (RuleBasedSegmentDto C)
  pub fetch_many : S → List Str → GoMap Str (Option (RuleBasedSegmentDto C))
  pub update : S → List (RuleBasedSegmentDto C) → List (RuleBasedSegmentDto C) → ℤ → S
  pub replace_all : S → List (RuleBasedSegmentDto C) → ℤ → S
  pub set_change_number : S → ℤ → S
  -- A segment is stored under its name, and `FetchMany` returns a map from the names asked for to
  -- what is stored for each.
  pub by_name-name :
      (s : S) (n : Str) (d : RuleBasedSegmentDto C) → by_name s n ≡ some d → d.name ≡ n
  pub fetch_many-by_name :
      (s : S) (names : List Str) (n : Str)
      → lookup n (fetch_many s names) ≡ (if contains n names then some (by_name s n) else none)
  pub fetch_many-Distinct : (s : S) (names : List Str) → Distinct (fetch_many s names)

pub record RbStorage (S : Type 0) : Type 0 where
  pub snapshot : S
  pub db : RbChanges
  pub historic : List RbView
  pub oldest_known_cn : ℤ

pub record RuleBasedSegmentsDto (C : Type 0) : Type 0 where
  pub since : ℤ
  pub till : ℤ
  pub rule_based_segments : List (RuleBasedSegmentDto C)

pub data RbResponse (C : Type 0) : Type 0 where
  rb_changes : RuleBasedSegmentsDto C → RbResponse C
  -- "error fetching changeNumber from snapshot"
  rb_snapshot_error : RbResponse C
  rb_since_param_too_old : RbResponse C

-- `archivedRBDTOForView`
unfoldable pub archived_rb_dto_for_view : {C : Type 0} → RbView → RuleBasedSegmentDto C
archived_rb_dto_for_view view = record {
  name = view.name;
  status = str "ARCHIVED";
  change_number = view.last_updated;
  rest = [];
}

-- The loop over the views: `till`, the names to fetch, and the archived segments.
pub latest : ℤ → List RbView → ℤ
latest till [] = till
latest till (v ∷ views) = latest (if ltb_ℤ till v.last_updated then v.last_updated else till) views

pub names_to_fetch : List RbView → List Str
names_to_fetch [] = []
names_to_fetch (v ∷ views) =
    let rest = names_to_fetch views in if v.active then v.name ∷ rest else rest

pub archived : {C : Type 0} → List RbView → List (RuleBasedSegmentDto C)
unfolding archived_rb_dto_for_view
archived [] = []
archived (v ∷ views) =
    let rest = archived views in if v.active then rest else archived_rb_dto_for_view v ∷ rest

-- The loop over the fetched segments; those that are missing are logged and left out.
pub present :
    {C : Type 0} → GoMap Str (Option (RuleBasedSegmentDto C)) → List (RuleBasedSegmentDto C)
present [] = []
present ((name, segment) ∷ fetched) =
    let rest = present fetched in elim segment [ none ↦ rest | some d ↦ d ∷ rest ]

unfoldable pub since_is_too_old : ℤ → ℤ → Bool
since_is_too_old oldest since = if since == minus_one then false else ltb_ℤ since oldest

-- `setStartingPoint`
unfoldable pub starting_point : ℤ → ℤ → ℤ
starting_point oldest cn = if oldest == minus_one || ltb_ℤ cn oldest then cn else oldest

abbrev is_empty {ℓ} : {A : Type ℓ} → List A → Bool
is_empty [] = true
is_empty (x ∷ xs) = false

module _ {C S : Type 0} (snap : RbSnapshot C S) where
  unfoldable pub changes_since : RbStorage S → ℤ → RbResponse C
  unfolding since_is_too_old latest names_to_fetch archived present
  changes_since p since =
      if since == minus_one
      then elim (snap.change_number p.snapshot) [
        | none ↦ rb_snapshot_error
        | some cn ↦
            rb_changes
              (record { since = since; till = cn; rule_based_segments = snap.all p.snapshot })
      ]
      else (if since_is_too_old p.oldest_known_cn since
          then rb_since_param_too_old
          else (let views = RbHistoric.get_updated_since p.historic since in
              rb_changes (record {
                since = since;
                till = latest since views;
                rule_based_segments =
                    archived views ++ present (snap.fetch_many p.snapshot (names_to_fetch views));
              })))

  -- `Update`, with `accepts` for the answers of bolt.
  unfoldable pub update :
      RbCodec C
      → (Str → Str → Bool)
      → RbStorage S
      → List (RuleBasedSegmentDto C)
      → List (RuleBasedSegmentDto C)
      → ℤ
      → RbStorage S
  unfolding starting_point
  update codec accepts p to_add to_remove cn =
      let started = record p { oldest_known_cn = starting_point p.oldest_known_cn cn } in
      if is_empty to_add && is_empty to_remove then started else record started {
        snapshot = snap.update p.snapshot to_add to_remove cn;
        historic = RbHistoric.update p.historic to_add to_remove;
        db = RuleBased.update codec accepts p.db to_add to_remove cn;
      }

  unfoldable pub replace_all : RbStorage S → List (RuleBasedSegmentDto C) → ℤ → RbStorage S
  replace_all p rbs cn = record p { snapshot = snap.replace_all p.snapshot rbs cn }

  unfoldable pub set_change_number : RbStorage S → ℤ → RbStorage S
  set_change_number p cn = record p { snapshot = snap.set_change_number p.snapshot cn }

  -- `snapshotFromDiskRB`: the largest change number, and the active segments.
  pub newest : ℤ → List (RuleBasedSegmentDto C) → ℤ
  newest cn [] = cn
  newest cn (s ∷ all) = newest (if ltb_ℤ cn s.change_number then s.change_number else cn) all

  pub active_only : List (RuleBasedSegmentDto C) → List (RuleBasedSegmentDto C)
  active_only [] = []
  active_only (s ∷ all) =
      let rest = active_only all in if s.status == active_status then s ∷ rest else rest

  unfoldable pub snapshot_from_disk : RbCodec C → RbChanges → RbStorage S
  unfolding newest active_only
  snapshot_from_disk codec db = elim (RuleBased.fetch_segments codec db) [
    | err e ↦ record { snapshot = snap.empty; db = db; historic = []; oldest_known_cn = minus_one }
    | ok all ↦
        let cn = newest db.change_number all in
        record {
          snapshot = snap.update snap.empty (active_only all) [] cn;
          db = db;
          historic = RbHistoric.update [] (active_only all) [];
          oldest_known_cn = cn;
        }
  ]

  -- `NewProxyRuleBasedSegmentsStorage`, on a database that holds the collection.
  unfoldable pub new_rb_storage : RbCodec C → RbChanges → Bool → RbStorage S
  unfolding snapshot_from_disk
  new_rb_storage codec db restore =
      if restore
      then snapshot_from_disk codec db
      else record { snapshot = snap.empty; db = db; historic = []; oldest_known_cn = minus_one }
