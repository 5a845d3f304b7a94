-- ===== src/Telemetry/Laws.antt =====
-- Each endpoint has counters of its own: what a call changes, and what it leaves alone.
use mathlib.Core.Option
use split_synchronizer.Prelude.GoMap.{lookup, lookup-store}
use split_synchronizer.Prelude.{
  ℕ, suc, Option, none, some, ◌≡◌, ◌≢◌, refl, arith, if◌then◌else◌, nat_beq, nat_eq,
}
use split_synchronizer.Telemetry.Endpoints.{
  Endpoint, auth_endpoint, split_changes_endpoint, segment_changes_endpoint, my_segments_endpoint,
  impressions_bulk_endpoint, impressions_bulk_beacon_endpoint, impressions_count_endpoint,
  impressions_count_beacon_endpoint, events_bulk_endpoint, events_bulk_beacon_endpoint,
  telemetry_config_endpoint, telemetry_runtime_endpoint, legacy_time_endpoint,
  legacy_times_endpoint, legacy_counter_endpoint, legacy_counters_endpoint, legacy_gauge_endpoint,
  telemetry_runtime_beacon_endpoint, telemetry_keys_client_side_endpoint,
  telemetry_keys_client_side_beacon_endpoint, telemetry_keys_server_side_endpoint, unlisted,
}
use split_synchronizer.Telemetry.Latencies.{
  LatencyCounter, EndpointLatencies, record_endpoint_latency, peek_endpoint_latency,
}
use split_synchronizer.Telemetry.StatusCodes.{
  StatusCodeMap, code_count, incr_code, EndpointStatusCodes, incr_endpoint_status,
  peek_endpoint_status,
}

-- Counting a status code adds one to that code and to no other.
pub lookup-incr_code :
    (code other : ℕ) (m : StatusCodeMap)
    → code_count (lookup other (incr_code code m)) ≡ (
        if nat_beq code other
        then suc (code_count (lookup other m))
        else code_count (lookup other m))
unfolding incr_code
lookup-incr_code code other m =
    ground (arith, lookup-store code other (suc (code_count (lookup code m))) m)

-- A status is counted for its endpoint.
pub peek-incr_self :
    (e : EndpointStatusCodes) (ep : Endpoint) (status : ℕ)
    → peek_endpoint_status (incr_endpoint_status e ep status) ep
      ≡ Option.map (incr_code status) (peek_endpoint_status e ep)
unfolding peek_endpoint_status incr_endpoint_status
peek-incr_self e auth_endpoint status = refl
peek-incr_self e _ status = refl

-- Counting a status for one endpoint leaves the status codes of every other endpoint as they were.
pub peek-incr_ne :
    (e : EndpointStatusCodes) (ep other : Endpoint) (status : ℕ)
    → ep ≢ other
    → peek_endpoint_status (incr_endpoint_status e ep status) other ≡ peek_endpoint_status e other
unfolding peek_endpoint_status incr_endpoint_status
peek-incr_ne e auth_endpoint auth_endpoint status h = absurd (h refl)
peek-incr_ne e auth_endpoint _ status h = refl
peek-incr_ne e split_changes_endpoint split_changes_endpoint status h = absurd (h refl)
peek-incr_ne e split_changes_endpoint _ status h = refl
peek-incr_ne e segment_changes_endpoint segment_changes_endpoint status h = absurd (h refl)
peek-incr_ne e segment_changes_endpoint _ status h = refl
peek-incr_ne e my_segments_endpoint my_segments_endpoint status h = absurd (h refl)
peek-incr_ne e my_segments_endpoint _ status h = refl
peek-incr_ne e impressions_bulk_endpoint impressions_bulk_endpoint status h = absurd (h refl)
peek-incr_ne e impressions_bulk_endpoint _ status h = refl
peek-incr_ne e impressions_bulk_beacon_endpoint impressions_bulk_beacon_endpoint status h =
    absurd (h refl)
peek-incr_ne e impressions_bulk_beacon_endpoint _ status h = refl
peek-incr_ne e impressions_count_endpoint impressions_count_endpoint status h = absurd (h refl)
peek-incr_ne e impressions_count_endpoint _ status h = refl
peek-incr_ne e impressions_count_beacon_endpoint impressions_count_beacon_endpoint status h =
    absurd (h refl)
peek-incr_ne e impressions_count_beacon_endpoint _ status h = refl
peek-incr_ne e events_bulk_endpoint events_bulk_endpoint status h = absurd (h refl)
peek-incr_ne e events_bulk_endpoint _ status h = refl
peek-incr_ne e events_bulk_beacon_endpoint events_bulk_beacon_endpoint status h = absurd (h refl)
peek-incr_ne e events_bulk_beacon_endpoint _ status h = refl
peek-incr_ne e telemetry_config_endpoint telemetry_config_endpoint status h = absurd (h refl)
peek-incr_ne e telemetry_config_endpoint _ status h = refl
peek-incr_ne e telemetry_runtime_endpoint telemetry_runtime_endpoint status h = absurd (h refl)
peek-incr_ne e telemetry_runtime_endpoint _ status h = refl
peek-incr_ne e legacy_time_endpoint legacy_time_endpoint status h = absurd (h refl)
peek-incr_ne e legacy_time_endpoint _ status h = refl
peek-incr_ne e legacy_times_endpoint legacy_times_endpoint status h = absurd (h refl)
peek-incr_ne e legacy_times_endpoint _ status h = refl
peek-incr_ne e legacy_counter_endpoint legacy_counter_endpoint status h = absurd (h refl)
peek-incr_ne e legacy_counter_endpoint _ status h = refl
peek-incr_ne e legacy_counters_endpoint legacy_counters_endpoint status h = absurd (h refl)
peek-incr_ne e legacy_counters_endpoint _ status h = refl
peek-incr_ne e legacy_gauge_endpoint legacy_gauge_endpoint status h = absurd (h refl)
peek-incr_ne e legacy_gauge_endpoint _ status h = refl
peek-incr_ne e telemetry_runtime_beacon_endpoint telemetry_runtime_beacon_endpoint status h =
    absurd (h refl)
peek-incr_ne e telemetry_runtime_beacon_endpoint _ status h = refl
peek-incr_ne e telemetry_keys_client_side_endpoint telemetry_keys_client_side_endpoint status h =
    absurd (h refl)
peek-incr_ne e telemetry_keys_client_side_endpoint _ status h = refl
peek-incr_ne e telemetry_keys_client_side_beacon_endpoint telemetry_keys_client_side_beacon_endpoint
      status h =
    absurd (h refl)
peek-incr_ne e telemetry_keys_client_side_beacon_endpoint _ status h = refl
peek-incr_ne e telemetry_keys_server_side_endpoint telemetry_keys_server_side_endpoint status h =
    absurd (h refl)
peek-incr_ne e telemetry_keys_server_side_endpoint _ status h = refl
peek-incr_ne e (unlisted n) other status h = refl

-- The endpoint under which a latency is read back: the configuration and the runtime endpoints are
-- exchanged.
abbrev pub recorded_under : Endpoint → Endpoint
recorded_under telemetry_config_endpoint = telemetry_runtime_endpoint
recorded_under telemetry_runtime_endpoint = telemetry_config_endpoint
recorded_under ep = ep

abbrev pub counter_of : {A : Type 0} → EndpointLatencies A → Endpoint → Option A
counter_of p auth_endpoint = some p.auth
counter_of p split_changes_endpoint = some p.split_changes
counter_of p segment_changes_endpoint = some p.segment_changes
counter_of p my_segments_endpoint = some p.my_segments
counter_of p impressions_bulk_endpoint = some p.impressions_bulk
counter_of p impressions_bulk_beacon_endpoint = some p.impressions_bulk_beacon
counter_of p impressions_count_endpoint = some p.impressions_count
counter_of p impressions_count_beacon_endpoint = some p.impressions_count_beacon
counter_of p events_bulk_endpoint = some p.events_bulk
counter_of p events_bulk_beacon_endpoint = some p.events_bulk_beacon
counter_of p telemetry_config_endpoint = some p.telemetry_config
counter_of p telemetry_runtime_endpoint = some p.telemetry_runtime
counter_of p telemetry_runtime_beacon_endpoint = some p.telemetry_beacon_runtime
counter_of p legacy_time_endpoint = some p.legacy_time
counter_of p legacy_times_endpoint = some p.legacy_times
counter_of p legacy_counter_endpoint = some p.legacy_counter
counter_of p legacy_counters_endpoint = some p.legacy_counters
counter_of p legacy_gauge_endpoint = some p.legacy_gauge
counter_of p telemetry_keys_client_side_endpoint = some p.telemetry_keys_client_side
counter_of p telemetry_keys_client_side_beacon_endpoint = some p.telemetry_keys_client_side_beacon
counter_of p telemetry_keys_server_side_endpoint = some p.telemetry_keys_server_side
counter_of p (unlisted _) = none

module _ {A : Type 0} (counter : LatencyCounter A) where
  -- A latency is counted in the bucket of its milliseconds, and read back under the endpoint named by
  -- `recorded_under`: the configuration endpoint for the runtime endpoint, the runtime endpoint for the
  -- configuration endpoint, and else the endpoint itself.
  pub peek-record_self :
      (p : EndpointLatencies A) (ep : Endpoint) (latency : ℕ)
      → peek_endpoint_latency counter
          (record_endpoint_latency counter p ep latency)
          (recorded_under ep)
        ≡ Option.map
            (λ c. counter.read_all (counter.incr (counter.bucket latency) c))
            (counter_of p (recorded_under ep))
  unfolding peek_endpoint_latency record_endpoint_latency
  peek-record_self p auth_endpoint latency = refl
  peek-record_self p _ latency = refl

  -- Recording a latency leaves the latencies of every endpoint as they were, but of the one named by
  -- `recorded_under`.
  pub peek-record_ne :
      (p : EndpointLatencies A) (ep other : Endpoint) (latency : ℕ)
      → recorded_under ep ≢ other
      → peek_endpoint_latency counter (record_endpoint_latency counter p ep latency) other
        ≡ peek_endpoint_latency counter p other
  unfolding peek_endpoint_latency record_endpoint_latency
  peek-record_ne p auth_endpoint auth_endpoint latency h = absurd (h refl)
  peek-record_ne p auth_endpoint _ latency h = refl
  peek-record_ne p split_changes_endpoint split_changes_endpoint latency h = absurd (h refl)
  peek-record_ne p split_changes_endpoint _ latency h = refl
  peek-record_ne p segment_changes_endpoint segment_changes_endpoint latency h = absurd (h refl)
  peek-record_ne p segment_changes_endpoint _ latency h = refl
  peek-record_ne p my_segments_endpoint my_segments_endpoint latency h = absurd (h refl)
  peek-record_ne p my_segments_endpoint _ latency h = refl
  peek-record_ne p impressions_bulk_endpoint impressions_bulk_endpoint latency h = absurd (h refl)
  peek-record_ne p impressions_bulk_endpoint _ latency h = refl
  peek-record_ne p impressions_bulk_beacon_endpoint impressions_bulk_beacon_endpoint latency h =
      absurd (h refl)
  peek-record_ne p impressions_bulk_beacon_endpoint _ latency h = refl
  peek-record_ne p impressions_count_endpoint impressions_count_endpoint latency h = absurd (h refl)
  peek-record_ne p impressions_count_endpoint _ latency h = refl
  peek-record_ne p impressions_count_beacon_endpoint impressions_count_beacon_endpoint latency h =
      absurd (h refl)
  peek-record_ne p impressions_count_beacon_endpoint _ latency h = refl
  peek-record_ne p events_bulk_endpoint events_bulk_endpoint latency h = absurd (h refl)
  peek-record_ne p events_bulk_endpoint _ latency h = refl
  peek-record_ne p events_bulk_beacon_endpoint events_bulk_beacon_endpoint latency h =
      absurd (h refl)
  peek-record_ne p events_bulk_beacon_endpoint _ latency h = refl
  peek-record_ne p telemetry_config_endpoint telemetry_runtime_endpoint latency h = absurd (h refl)
  peek-record_ne p telemetry_config_endpoint _ latency h = refl
  peek-record_ne p telemetry_runtime_endpoint telemetry_config_endpoint latency h = absurd (h refl)
  peek-record_ne p telemetry_runtime_endpoint _ latency h = refl
  peek-record_ne p legacy_time_endpoint legacy_time_endpoint latency h = absurd (h refl)
  peek-record_ne p legacy_time_endpoint _ latency h = refl
  peek-record_ne p legacy_times_endpoint legacy_times_endpoint latency h = absurd (h refl)
  peek-record_ne p legacy_times_endpoint _ latency h = refl
  peek-record_ne p legacy_counter_endpoint legacy_counter_endpoint latency h = absurd (h refl)
  peek-record_ne p legacy_counter_endpoint _ latency h = refl
  peek-record_ne p legacy_counters_endpoint legacy_counters_endpoint latency h = absurd (h refl)
  peek-record_ne p legacy_counters_endpoint _ latency h = refl
  peek-record_ne p legacy_gauge_endpoint legacy_gauge_endpoint latency h = absurd (h refl)
  peek-record_ne p legacy_gauge_endpoint _ latency h = refl
  peek-record_ne p telemetry_runtime_beacon_endpoint telemetry_runtime_beacon_endpoint latency h =
      absurd (h refl)
  peek-record_ne p telemetry_runtime_beacon_endpoint _ latency h = refl
  peek-record_ne p telemetry_keys_client_side_endpoint telemetry_keys_client_side_endpoint latency
        h =
      absurd (h refl)
  peek-record_ne p telemetry_keys_client_side_endpoint _ latency h = refl
  peek-record_ne p telemetry_keys_client_side_beacon_endpoint
        telemetry_keys_client_side_beacon_endpoint latency h =
      absurd (h refl)
  peek-record_ne p telemetry_keys_client_side_beacon_endpoint _ latency h = refl
  peek-record_ne p telemetry_keys_server_side_endpoint telemetry_keys_server_side_endpoint latency
        h =
      absurd (h refl)
  peek-record_ne p telemetry_keys_server_side_endpoint _ latency h = refl
  peek-record_ne p (unlisted n) other latency h = refl
