-- ===== src/Storage/Splits/StartingPoint.antt =====
-- The oldest change number from which the storage can answer.
use split_synchronizer.Optimized.Historic.{SplitDto}
use split_synchronizer.Persistent.Splits.{Codec}
use split_synchronizer.Prelude.Str.{Str}
use split_synchronizer.Prelude.{
  Bool, List, [], ◌∷◌, ◌≡◌, ◌≢◌, ◌↔◌, refl, arith, ℤ, minus_one, ◌≤ℤ◌, ◌<ℤ◌, All, Any, pos,
  pos_part, neg_part, ◌∙◌, ap,
}
use split_synchronizer.Storage.Splits.{
  Snapshot, SplitStorage, since_param_too_old, since_is_too_old, starting_point, changes_since,
  update,
}

-- The change numbers of a run of updates, folded as `setStartingPoint` folds them.
abbrev pub start_after : ℤ → List ℤ → ℤ
start_after oldest [] = oldest
start_after oldest (cn ∷ cns) = start_after (starting_point oldest cn) cns

-- Once set, the starting point never rises.
start_after-le :
    (oldest : ℤ) (cns : List ℤ)
    → pos 0 ≤ℤ oldest
    → All (λ cn. pos 0 ≤ℤ cn) cns
    → start_after oldest cns ≤ℤ oldest
unfolding starting_point
start_after-le oldest [] h hs = omega arith
start_after-le oldest (cn ∷ cns) h hs =
    ground (arith, start_after-le (starting_point oldest cn) cns)

-- After any run of updates it is not above the change number of any of them.
start_after-bound :
    (oldest since : ℤ) (cns : List ℤ)
    → minus_one ≤ℤ oldest
    → All (λ cn. pos 0 ≤ℤ cn) cns
    → Any (λ cn. cn ≤ℤ since) cns
    → start_after oldest cns ≤ℤ since
unfolding starting_point
start_after-bound oldest since [] h hs found = absurd found
start_after-bound oldest since (cn ∷ cns) h hs found = ground (
  arith,
  start_after-bound (starting_point oldest cn) since cns,
  start_after-le (starting_point oldest cn) cns,
)

-- One call of `Update`.
pub record Batch (C : Type 0) : Type 0 where
  pub to_add : List (SplitDto C)
  pub to_remove : List (SplitDto C)
  pub change_number : ℤ

abbrev pub batch_cns : {C : Type 0} → List (Batch C) → List ℤ
batch_cns [] = []
batch_cns (b ∷ batches) = b.change_number ∷ batch_cns batches

module _ {C S : Type 0} (snap : Snapshot C S) where
  -- `ChangesSince` refuses a request exactly when it names a change number below the starting point.
  pub changes_since-too_old :
      (p : SplitStorage S) (since : ℤ) (sets : List Str)
      → (changes_since snap p since sets ≡ since_param_too_old)
        ↔ ((since ≢ minus_one) × (since <ℤ p.oldest_known_cn))
  unfolding changes_since since_is_too_old
  changes_since-too_old p since sets = ground arith

  module _ (codec : Codec C) (accepts : Str → Str → Bool) where
    abbrev pub run_updates : SplitStorage S → List (Batch C) → SplitStorage S
    run_updates p [] = p
    run_updates p (b ∷ batches) =
        run_updates (update snap codec accepts p b.to_add b.to_remove b.change_number) batches

    update_start :
        (p : SplitStorage S) (b : Batch C)
        → (update snap codec accepts p b.to_add b.to_remove b.change_number).oldest_known_cn
          ≡ starting_point p.oldest_known_cn b.change_number
    unfolding update
    update_start p b = ground arith

    run_updates_start :
        (p : SplitStorage S) (batches : List (Batch C))
        → (run_updates p batches).oldest_known_cn
          ≡ start_after p.oldest_known_cn (batch_cns batches)
    run_updates_start p [] = refl
    run_updates_start p (b ∷ batches) =
        run_updates_start (update snap codec accepts p b.to_add b.to_remove b.change_number) batches
        ∙ ap (λ cn. start_after cn (batch_cns batches)) (update_start p b)

    -- After any run of updates with change numbers from 0 on, on a storage whose starting point is not
    -- below -1, a request from the change number of one of them, or a later one, is not refused as
    -- too old.
    pub run_updates_served :
        (p : SplitStorage S) (batches : List (Batch C)) (since : ℤ) (sets : List Str)
        → minus_one ≤ℤ p.oldest_known_cn
        → All (λ cn. pos 0 ≤ℤ cn) (batch_cns batches)
        → Any (λ cn. cn ≤ℤ since) (batch_cns batches)
        → changes_since snap (run_updates p batches) since sets ≢ since_param_too_old
    run_updates_served p batches since sets h hs found refused = omega (
      arith,
      ((changes_since-too_old (run_updates p batches) since sets).0 refused).1,
      ap pos_part (run_updates_start p batches),
      ap neg_part (run_updates_start p batches),
      start_after-bound p.oldest_known_cn since (batch_cns batches) h hs found,
    )
