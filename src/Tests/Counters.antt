-- ===== src/Tests/Counters.antt =====
-- Runs of the counters: of requests, of errors and of names.

use split_synchronizer.Health.ByPercentage.Sliding.{last_codes}
use split_synchronizer.Health.ByPercentage.Window.{Hit, run_hits, Since, run_hits-verdict}
use split_synchronizer.Health.ByPercentage.{
  Config, critical, new_counter_by_percentage, percentage_ok, notify_hit,
}
use split_synchronizer.Health.Periodic.{
  started, failed, run_events, errors_after, new_periodic_counter, periodic_healthy,
}
use split_synchronizer.Observability.SplitTracker.{
  present, tracks, tracks-observe_update, failed_some,
}
use split_synchronizer.Observability.SplitTracker
use split_synchronizer.Prelude.GoMap.{GoMap, lookup}
use split_synchronizer.Prelude.Keys.{contains}
use split_synchronizer.Prelude.Str.{Str, str, str_eq}
use split_synchronizer.Prelude.{
  Bool, ℕ, ◌≤◌, ◌<◌, true, false, not, ◌&&◌, ◌||◌, some, [], ◌∷◌, ◌==◌, ◌≡◌, ◌↔◌, ◌⊎◌, refl, arith,
  pos, leb, length, nat_eq,
}
use split_synchronizer.Telemetry.Bounded.{latency_recorded, status_counted, run, run_bounded}
use split_synchronizer.Telemetry.Rollover.{unsafe_rollover-oldest}
use split_synchronizer.Telemetry.TimeSlices.{
  unsafe_rollover, sorted_keys, delete_all, new_timesliced,
}
use split_synchronizer.Telemetry.Endpoints.{auth_endpoint}
use split_synchronizer.Telemetry.Latencies.{EndpointLatencies, new_endpoint_latencies}
use split_synchronizer.Tests.Flags.{f1, f2}
use split_synchronizer.Tests.Params.{latency_counter}

run_bounded_example :
    length
      (run latency_counter (new_timesliced latency_counter 60 2) (
        latency_recorded auth_endpoint 12 100
        ∷ status_counted auth_endpoint 200 400
        ∷ status_counted auth_endpoint 500 200
        ∷ [])).by_time_slice
    ≤ 2
run_bounded_example = run_bounded latency_counter 60 2 (
    latency_recorded auth_endpoint 12 100
    ∷ status_counted auth_endpoint 200 400
    ∷ status_counted auth_endpoint 500 200
    ∷ [])

abbrev slices : GoMap ℕ ℕ
slices = (120, 7) ∷ (60, 8) ∷ (180, 9) ∷ []

unsafe_rollover-oldest_example : (60 ≤ 120) × (lookup 120 slices ≡ some 7)
unfolding lookup unsafe_rollover sorted_keys delete_all
unsafe_rollover-oldest_example = unsafe_rollover-oldest 2 slices 60 120 8 7 refl refl refl

abbrev latencies : EndpointLatencies ℕ
latencies = new_endpoint_latencies latency_counter

abbrev refuses : Str → Bool
refuses n = n == str "f2"

tracks-observe_update_example :
    tracks
      (SplitTracker.observe_update
        ((str "f1", present) ∷ [])
        (f2 ∷ [])
        (f1 ∷ [])
        (failed_some refuses refuses))
      (str "f2")
    ≡ (not (not (refuses (str "f2")) && contains (str "f2") (SplitTracker.split_names (f1 ∷ [])))
        && ((not (refuses (str "f2")) && contains (str "f2") (SplitTracker.split_names (f2 ∷ [])))
            || tracks ((str "f1", present) ∷ []) (str "f2")))
tracks-observe_update_example =
    tracks-observe_update ((str "f1", present) ∷ []) (f2 ∷ []) (f1 ∷ []) refuses refuses (str "f2")

abbrev config : Config
config = record {
  max_len = 2;
  percentage_to_be_healthy = 70;
  name = str "sdk";
  service_url = str "url";
  service_health_endpoint = str "/version";
  severity = critical;
}

abbrev hit : ℕ → ℕ → Hit
hit code now = record { status_code = pos code; message = str "down"; at = now }

run_hits-verdict_example :
    ((notify_hit
        (run_hits (new_counter_by_percentage config 0) (hit 500 1 ∷ hit 200 2 ∷ []))
        (pos 200)
        (str "down")
        3).cache
      ≡ last_codes 2 (pos 500 ∷ pos 200 ∷ pos 200 ∷ []))
    × ((notify_hit
          (run_hits (new_counter_by_percentage config 0) (hit 500 1 ∷ hit 200 2 ∷ []))
          (pos 200)
          (str "down")
          3).healthy
        ≡ leb 70 (percentage_ok (last_codes 2 (pos 500 ∷ pos 200 ∷ pos 200 ∷ []))))
    × Since (
        notify_hit
          (run_hits (new_counter_by_percentage config 0) (hit 500 1 ∷ hit 200 2 ∷ []))
          (pos 200)
          (str "down")
          3)
run_hits-verdict_example =
    run_hits-verdict config 0 (hit 500 1 ∷ hit 200 2 ∷ []) (hit 200 3) (omega arith)

periodic_healthy_example :
    ((run_events
        (new_periodic_counter (str "storage") 0 2)
        (started ∷ failed 1 ∷ failed 2 ∷ [])).healthy
      ≡ true)
    ↔ ((errors_after false 0 (started ∷ failed 1 ∷ failed 2 ∷ []) ≡ 0)
        ⊎ (errors_after false 0 (started ∷ failed 1 ∷ failed 2 ∷ []) < 2))
periodic_healthy_example = periodic_healthy (str "storage") 0 2 (started ∷ failed 1 ∷ failed 2 ∷ [])
