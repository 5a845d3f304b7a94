-- ===== src/Producer/TelemetryWorker.antt =====
-- splitio/producer/worker/telemetry.go: the latencies and exceptions of each SDK are put together and
-- recorded. The types of both are variables here, `L` and `X`; the recorder is a parameter that says
-- whether it failed. Go maps come in any order of their keys.
pub mod Join
use split_synchronizer.Prelude.GoMap.{GoMap, lookup, store}
use split_synchronizer.Prelude.{Bool, true, false, Option, none, some, List, [], ◌∷◌, if◌then◌else◌}
use split_synchronizer.Producer.Metadata.{Metadata, metadata_eq}

-- `dtos.Stats`, as far as it is set; all have the tag of a consumer.
pub record Stats (L X : Type 0) : Type 0 where
  pub method_latencies : Option L
  pub method_exceptions : Option X

module _ {L X : Type 0} where
  -- The loop over the latencies.
  unfoldable pub with_latencies :
      GoMap Metadata X → GoMap Metadata (Stats L X) → GoMap Metadata L → GoMap Metadata (Stats L X)
  unfolding lookup store
  with_latencies excs result [] = result
  with_latencies excs result ((m, lats) ∷ rest) =
      with_latencies excs
        (store m (record { method_latencies = some lats; method_exceptions = lookup m excs })
          result)
        rest

  -- The loop over the exceptions: those of a known metadata have been stored.
  unfoldable pub with_exceptions :
      GoMap Metadata (Stats L X) → GoMap Metadata X → GoMap Metadata (Stats L X)
  unfolding lookup store
  with_exceptions result [] = result
  with_exceptions result ((m, excs) ∷ rest) =
      with_exceptions
        (elim (lookup m result) [
          | none ↦
              store m (record { method_latencies = none; method_exceptions = some excs }) result
          | some stats ↦ result
        ])
        rest

  -- `buildStats`
  unfoldable pub build_stats : GoMap Metadata L → GoMap Metadata X → GoMap Metadata (Stats L X)
  unfolding with_latencies with_exceptions
  build_stats latencies exceptions =
      with_exceptions (with_latencies exceptions [] latencies) exceptions

-- The loop of `SynchronizeStats` and of `SyncrhonizeConfigs`: the metadata whose record failed.
unfoldable pub record_each :
    {A E : Type 0}
    → (A → Metadata → Option E)
    → GoMap Metadata E
    → GoMap Metadata A
    → GoMap Metadata E
unfolding store
record_each recorder errors [] = errors
record_each recorder errors ((m, a) ∷ rest) =
    record_each recorder (elim (recorder a m) [ none ↦ errors | some e ↦ store m e errors ]) rest

-- None where nothing failed.
unfoldable pub multi_sync_error : {E : Type 0} → GoMap Metadata E → Option (GoMap Metadata E)
multi_sync_error [] = none
multi_sync_error (e ∷ errors) = some (e ∷ errors)

unfoldable pub synchronize_stats :
    {L X E : Type 0}
    → (Stats L X → Metadata → Option E)
    → GoMap Metadata L
    → GoMap Metadata X
    → Option (GoMap Metadata E)
unfolding build_stats record_each multi_sync_error
synchronize_stats recorder latencies exceptions =
    multi_sync_error (record_each recorder [] (build_stats latencies exceptions))

unfoldable pub synchronize_configs :
    {A E : Type 0} → (A → Metadata → Option E) → GoMap Metadata A → Option (GoMap Metadata E)
unfolding record_each multi_sync_error
synchronize_configs recorder configs = multi_sync_error (record_each recorder [] configs)
