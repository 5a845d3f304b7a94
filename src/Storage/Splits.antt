-- ===== src/Storage/Splits.antt =====
-- splitio/proxy/storage/splits.go: the feature flags of the proxy, as a snapshot of the latest
-- configuration, the history of changes and the collection on disk. The snapshot is the in-memory
-- storage of go-split-commons, which is not in the repository: a parameter, with its state type `S`.
-- A mutex makes each method that writes one step.
pub mod ChangesSince
pub mod StartingPoint
use split_synchronizer.Optimized.Historic
use split_synchronizer.Optimized.Historic.{FeatureView, SplitDto, active_status, flag_set_names}
use split_synchronizer.Persistent.Bolt.{Result, ok, err}
use split_synchronizer.Persistent.Splits
use split_synchronizer.Persistent.Splits.{Codec, SplitChanges}
use split_synchronizer.Prelude.GoMap.{GoMap, lookup, Distinct}
use split_synchronizer.Prelude.Keys.{contains}
use split_synchronizer.Prelude.Str.{Str, str, str_eq}
use split_synchronizer.Prelude.{
  ℕ, Bool, true, false, ◌&&◌, ◌||◌, not, Option, none, some, List, [], ◌∷◌, ◌++◌, if◌then◌else◌,
  ◌==◌, ◌≡◌, length, ℤ, ltb_ℤ, int_eq, minus_one,
}

-- `mutexmap.MMSplitStorage`, as this code uses it.
pub record Snapshot (C S : Type 0) : Type 0 where
  pub empty : S
  -- `none` is an error.
  pub change_number : S → Option ℤ
  pub all : S → List (SplitDto C)
  pub split : S → Str → Option (SplitDto C)
  pub fetch_many : S → List Str → GoMap Str (Option (SplitDto C))
  pub split_names : S → List Str
  pub update : S → List (SplitDto C) → List (SplitDto C) → ℤ → S
  pub kill_locally : S → Str → Str → ℤ → S
  pub remove : S → Str → S
  pub set_change_number : S → ℤ → S
  -- A flag is stored under its name, and `FetchMany` returns a map from the names asked for to what
  -- `Split` returns for each.
  pub split-name : (s : S) (n : Str) (d : SplitDto C) → split s n ≡ some d → d.name ≡ n
  pub fetch_many-split :
      (s : S) (names : List Str) (n : Str)
      → lookup n (fetch_many s names) ≡ (if contains n names then some (split s n) else none)
  pub fetch_many-Distinct : (s : S) (names : List Str) → Distinct (fetch_many s names)

pub record SplitStorage (S : Type 0) : Type 0 where
  pub snapshot : S
  pub db : SplitChanges
  pub historic : List FeatureView
  pub oldest_known_cn : ℤ

pub record SplitChangesDto (C : Type 0) : Type 0 where
  pub since : ℤ
  pub till : ℤ
  pub splits : List (SplitDto C)

pub data Response (C : Type 0) : Type 0 where
  changes : SplitChangesDto C → Response C
  -- "error fetching changeNumber from snapshot"
  snapshot_error : Response C
  since_param_too_old : Response C

abbrev archived_status : Str
archived_status = str "ARCHIVED"

-- `archivedDTOForView`
unfoldable pub archived_dto_for_view : {C : Type 0} → FeatureView → SplitDto C
unfolding flag_set_names
archived_dto_for_view view = record {
  name = view.name;
  status = archived_status;
  change_number = view.last_updated;
  traffic_type_name = view.traffic_type_name;
  sets = flag_set_names view;
  traffic_allocation = 100;
  traffic_allocation_seed = ℤ.pos 0;
  seed = ℤ.pos 0;
  killed = false;
  default_treatment = str "off";
  algo = 1;
  conditions = [];
}

-- The loop over the views: `till`, the names to fetch, and the archived flags.
pub latest : ℤ → List FeatureView → ℤ
latest till [] = till
latest till (v ∷ views) = latest (if ltb_ℤ till v.last_updated then v.last_updated else till) views

pub names_to_fetch : List FeatureView → List Str
names_to_fetch [] = []
names_to_fetch (v ∷ views) =
    let rest = names_to_fetch views in if v.active then v.name ∷ rest else rest

pub archived : {C : Type 0} → List FeatureView → List (SplitDto C)
unfolding archived_dto_for_view
archived [] = []
archived (v ∷ views) =
    let rest = archived views in if v.active then rest else archived_dto_for_view v ∷ rest

-- The loop over the fetched flags; those that are missing are logged and left out.
pub present : {C : Type 0} → GoMap Str (Option (SplitDto C)) → List (SplitDto C)
present [] = []
present ((name, split) ∷ fetched) =
    let rest = present fetched in elim split [ none ↦ rest | some d ↦ d ∷ rest ]

unfoldable pub since_is_too_old : ℤ → ℤ → Bool
since_is_too_old oldest since = if since == minus_one then false else ltb_ℤ since oldest

-- `setStartingPoint`
unfoldable pub starting_point : ℤ → ℤ → ℤ
starting_point oldest cn = if oldest == minus_one || ltb_ℤ cn oldest then cn else oldest

abbrev is_empty {ℓ} : {A : Type ℓ} → List A → Bool
is_empty [] = true
is_empty (x ∷ xs) = false

module _ {C S : Type 0} (snap : Snapshot C S) where
  unfoldable pub changes_since : SplitStorage S → ℤ → List Str → Response C
  unfolding since_is_too_old latest names_to_fetch archived present
  changes_since p since flag_sets =
      if since == minus_one && is_empty flag_sets
      then elim (snap.change_number p.snapshot) [
        | none ↦ snapshot_error
        | some cn ↦ changes (record { since = since; till = cn; splits = snap.all p.snapshot })
      ]
      else (if since_is_too_old p.oldest_known_cn since
          then since_param_too_old
          else (let views = Historic.get_updated_since p.historic since flag_sets in
              changes (record {
                since = since;
                till = latest since views;
                splits =
                    archived views ++ present (snap.fetch_many p.snapshot (names_to_fetch views));
              })))

  -- `Update`, with `accepts` for the answers of bolt.
  unfoldable pub update :
      Codec C
      → (Str → Str → Bool)
      → SplitStorage S
      → List (SplitDto C)
      → List (SplitDto C)
      → ℤ
      → SplitStorage S
  unfolding starting_point
  update codec accepts p to_add to_remove cn =
      let started = record p { oldest_known_cn = starting_point p.oldest_known_cn cn } in
      if is_empty to_add && is_empty to_remove then started else record started {
        snapshot = snap.update p.snapshot to_add to_remove cn;
        historic = Historic.update p.historic to_add to_remove;
        db = Splits.update codec accepts p.db to_add to_remove cn;
      }

  unfoldable pub kill_locally : SplitStorage S → Str → Str → ℤ → SplitStorage S
  kill_locally p name treatment cn = record p {
    snapshot = snap.kill_locally p.snapshot name treatment cn;
  }

  unfoldable pub remove : SplitStorage S → Str → SplitStorage S
  remove p name = record p { snapshot = snap.remove p.snapshot name }

  unfoldable pub set_change_number : SplitStorage S → ℤ → SplitStorage S
  set_change_number p cn = record p { snapshot = snap.set_change_number p.snapshot cn }

  unfoldable pub count : SplitStorage S → ℕ
  count p = length (snap.split_names p.snapshot)

  -- `snapshotFromDisk`: the largest change number, and the active flags.
  pub newest : ℤ → List (SplitDto C) → ℤ
  newest cn [] = cn
  newest cn (s ∷ all) = newest (if ltb_ℤ cn s.change_number then s.change_number else cn) all

  pub active_only : List (SplitDto C) → List (SplitDto C)
  active_only [] = []
  active_only (s ∷ all) =
      let rest = active_only all in if s.status == active_status then s ∷ rest else rest

  unfoldable pub snapshot_from_disk : Codec C → SplitChanges → SplitStorage S
  unfolding newest active_only
  snapshot_from_disk codec db = elim (Splits.fetch_splits codec db) [
    | err e ↦ record { snapshot = snap.empty; db = db; historic = []; oldest_known_cn = minus_one }
    | ok all ↦
        let cn = newest db.change_number all in
        record {
          snapshot = snap.update snap.empty (active_only all) [] cn;
          db = db;
          historic = Historic.update [] (active_only all) [];
          oldest_known_cn = cn;
        }
  ]

  -- `NewProxySplitStorage`, on a database that holds the collection.
  unfoldable pub new_split_storage : Codec C → SplitChanges → Bool → SplitStorage S
  unfolding snapshot_from_disk
  new_split_storage codec db restore =
      if restore
      then snapshot_from_disk codec db
      else record { snapshot = snap.empty; db = db; historic = []; oldest_known_cn = minus_one }
