-- ===== src/Tests/Requests.antt =====
-- Requests to the storage of feature flags, sanitized flag sets, and the history of rule-based
-- segments.
use split_synchronizer.FlagSets.Sanitize.{sanitize-keeps}
use split_synchronizer.FlagSets.{FlagSetMatcher, sanitize}
use split_synchronizer.Optimized.Historic.History.{view_name}
use split_synchronizer.Optimized.Historic.{SplitDto}
use split_synchronizer.Optimized.RbHistoric
use split_synchronizer.Optimized.RbHistoric.Laws
use split_synchronizer.Optimized.RbHistoric.Laws.{
  rb_update-IsHistory, rb_find_by-update, rb_get_updated_since-select, last_entry, changed_after,
}
use split_synchronizer.Optimized.RbHistoric.{RbView, RuleBasedSegmentDto}
use split_synchronizer.Prelude.Keys.{contains}
use split_synchronizer.Prelude.Named.{find_by, DistinctBy}
use split_synchronizer.Prelude.Str.{Str, str, str_compare, str_eq}
use split_synchronizer.Prelude.{ℕ, true, List, [], ◌∷◌, ◌≡◌, ◌≢◌, refl, arith, ℤ, pos, inl, inr}
use split_synchronizer.Persistent.RuleBased.{new_rb_changes}
use split_synchronizer.Storage.RuleBased
use split_synchronizer.Storage.RuleBased.ChangesSince
use split_synchronizer.Storage.RuleBased.ChangesSince.{rb_changes_since-entries}
use split_synchronizer.Storage.RuleBased.{RbStorage, RuleBasedSegmentsDto, rb_changes}
use split_synchronizer.Storage.Splits.ChangesSince.{changes_since-entries, expected_entry, dto_name}
use split_synchronizer.Storage.Splits.StartingPoint.{Batch, run_updates, run_updates_served}
use split_synchronizer.Storage.Splits.{
  SplitStorage, SplitChangesDto, changes, since_param_too_old, changes_since,
}
use split_synchronizer.Persistent.Splits.{new_split_changes}
use split_synchronizer.Tests.Flags.{f1, f2, h, h-IsHistory}
use split_synchronizer.Tests.Params.{codec, takes, snapshot, rb_snapshot}

abbrev storage : SplitStorage (List (SplitDto ℕ))
storage = record {
  snapshot = f1 ∷ f2 ∷ [];
  db = new_split_changes;
  historic = h;
  oldest_known_cn = pos 3;
}

changes_since-entries_example :
    (dto : SplitChangesDto ℕ) × (changes_since snapshot storage (pos 3) [] ≡ changes dto)
    × DistinctBy dto_name dto.splits
    × ((n : Str)
        → find_by dto_name n dto.splits
          ≡ expected_entry snapshot (f1 ∷ f2 ∷ []) (pos 3) n (find_by view_name n h))
changes_since-entries_example =
    changes_since-entries snapshot storage (pos 3) h-IsHistory (λ e. cc) (omega arith)

abbrev batches : List (Batch ℕ)
batches =
    record { to_add = f2 ∷ []; to_remove = []; change_number = pos 5 }
    ∷ record { to_add = []; to_remove = []; change_number = pos 2 }
    ∷ []

run_updates_served_example :
    changes_since snapshot (run_updates snapshot codec takes storage batches) (pos 2) []
    ≢ since_param_too_old
run_updates_served_example =
    run_updates_served snapshot codec takes storage batches (pos 2) [] (omega arith)
      (omega arith, (omega arith, tt)) (inr (inl (omega arith)))

abbrev matcher : FlagSetMatcher
matcher = record { strict = true; sets = str "a" ∷ str "b" ∷ [] }

sanitize-keeps_example : contains (str "b") (sanitize matcher (str "x" ∷ str "b" ∷ [])) ≡ true
unfolding contains str_compare
sanitize-keeps_example = sanitize-keeps matcher (str "x" ∷ str "b" ∷ []) (str "b") refl refl

abbrev segment : Str → Str → ℤ → RuleBasedSegmentDto ℕ
segment name status cn = record { name = name; status = status; change_number = cn; rest = 7 ∷ [] }

abbrev r1 : RuleBasedSegmentDto ℕ
r1 = segment (str "r1") (str "ACTIVE") (pos 4)

abbrev r2 : RuleBasedSegmentDto ℕ
r2 = segment (str "r2") (str "ARCHIVED") (pos 2)

abbrev rb_history : List RbView
rb_history = RbHistoric.update [] (r1 ∷ []) (r2 ∷ [])

rb_history-IsHistory : Laws.IsHistory rb_history
rb_history-IsHistory =
    rb_update-IsHistory [] (r1 ∷ []) (r2 ∷ []) (record { sorted = tt; distinct = tt })

abbrev rb_storage : RbStorage (List (RuleBasedSegmentDto ℕ))
rb_storage = record {
  snapshot = r1 ∷ [];
  db = new_rb_changes;
  historic = rb_history;
  oldest_known_cn = pos 1;
}

rb_changes_since-entries_example :
    (dto : RuleBasedSegmentsDto ℕ) × (RuleBased.changes_since rb_snapshot rb_storage (pos 1)
      ≡ rb_changes dto)
    × DistinctBy ChangesSince.dto_name dto.rule_based_segments
    × ((n : Str)
        → find_by ChangesSince.dto_name n dto.rule_based_segments
          ≡ ChangesSince.expected_entry rb_snapshot
              (r1 ∷ [])
              (pos 1)
              n
              (find_by Laws.view_name n rb_history))
rb_changes_since-entries_example =
    rb_changes_since-entries rb_snapshot rb_storage (pos 1) rb_history-IsHistory (λ e. cc)
      (omega arith)
