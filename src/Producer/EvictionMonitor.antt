-- ===== src/Producer/EvictionMonitor.antt =====
-- splitio/producer/evcalc/evcalc.go: the window of flushing statistics, the eviction rate that it
-- gives, and the permission to flush. The window's slices are lists; `lambda` is the exact quotient
-- that the float stands for. The clock's type `Time` is a parameter. Each call holds the mutex, and is
-- one step.
pub mod Window
pub mod Permission
use split_synchronizer.Prelude.{
  ℕ, zero, suc, ◌*◌, ◌-◌, Bool, true, false, Option, none, some, List, [], ◌∷◌, ◌++◌, if◌then◌else◌,
  length, take, drop, leb, ℤ, pos, ◌+ℤ◌, ◌-ℤ◌, int_eq, ◌==◌, nat_beq,
}

pub record FlushRecord (Time : Type 0) : Type 0 where
  pub timestamp : Time
  pub data_flushed : ℤ
  pub data_in_storage : ℤ

-- One, or what was flushed over what was generated.
pub data Rate : Type 0 where
  one : Rate
  quotient : ℤ → ℤ → Rate

pub record Monitor (Time : Type 0) : Type 0 where
  pub flushing_stats : List (FlushRecord Time)
  pub max_length : ℕ
  pub lambda : Rate
  pub busy : Bool

module _ {Time : Type 0} where
  abbrev pub new_monitor : ℕ → Monitor Time
  new_monitor threads = record {
    flushing_stats = [];
    max_length = 100 * threads;
    lambda = one;
    busy = false;
  }

  -- `calculateAmountFlushed`
  unfoldable pub calculate_amount_flushed : List (FlushRecord Time) → ℤ
  calculate_amount_flushed [] = pos 0
  calculate_amount_flushed (r ∷ rs) = r.data_flushed +ℤ calculate_amount_flushed rs

  unfoldable pub last_in_storage : FlushRecord Time → List (FlushRecord Time) → ℤ
  last_in_storage r [] = r.data_in_storage
  last_in_storage r (s ∷ rs) = last_in_storage s rs

  -- `dataInT2 - dataInT1 + t`
  unfoldable pub amount_generated : FlushRecord Time → List (FlushRecord Time) → ℤ
  unfolding calculate_amount_flushed last_in_storage
  amount_generated r rs =
      last_in_storage r rs -ℤ r.data_in_storage +ℤ calculate_amount_flushed (r ∷ rs)

  -- `calculateLambda`, which panics on an empty window.
  unfoldable pub calculate_lambda : List (FlushRecord Time) → Option Rate
  unfolding calculate_amount_flushed last_in_storage amount_generated
  calculate_lambda [] = none
  calculate_lambda (r ∷ rs) =
      let generated = amount_generated r rs in
      some
        (if generated == pos 0 then one else quotient (calculate_amount_flushed (r ∷ rs)) generated)

  -- `flushingStats[1:maxLength]`, which panics where the maximum is zero.
  unfoldable pub moved : Monitor Time → Option (List (FlushRecord Time))
  moved m =
      if leb m.max_length (length m.flushing_stats)
      then if nat_beq m.max_length 0
        then none
        else some (take (m.max_length - 1) (drop 1 m.flushing_stats))
      else some m.flushing_stats

  -- `StoreDataFlushed`: none where it panics.
  unfoldable pub store_data_flushed : Monitor Time → FlushRecord Time → Option (Monitor Time)
  unfolding calculate_lambda moved
  store_data_flushed m r = elim (moved m) [
    | none ↦ none
    | some stats ↦ elim (calculate_lambda (stats ++ r ∷ [])) [
      | none ↦ none
      | some rate ↦ some (record m { flushing_stats = stats ++ r ∷ []; lambda = rate })
    ]
  ]

  -- `Acquire`, `Release`
  unfoldable pub acquire : Monitor Time → Monitor Time × Bool
  acquire m = if m.busy then (m, false) else (record m { busy = true }, true)

  unfoldable pub release : Monitor Time → Monitor Time
  release m = record m { busy = false }
