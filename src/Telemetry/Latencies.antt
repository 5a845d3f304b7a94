-- ===== src/Telemetry/Latencies.antt =====
-- splitio/proxy/storage/telemetry.go: the latencies of each endpoint. A latency counter is an
-- `AtomicInt64Slice` of go-split-commons, which is not in the repository, and so is the function from
-- milliseconds to a bucket: both are parameters.
use split_synchronizer.Prelude.{ℕ, Option, none, some, List, nat_eq}
use split_synchronizer.Telemetry.Endpoints.{
  Endpoint, auth_endpoint, split_changes_endpoint, segment_changes_endpoint, my_segments_endpoint,
  impressions_bulk_endpoint, impressions_bulk_beacon_endpoint, impressions_count_endpoint,
  impressions_count_beacon_endpoint, events_bulk_endpoint, events_bulk_beacon_endpoint,
  telemetry_config_endpoint, telemetry_runtime_endpoint, legacy_time_endpoint,
  legacy_times_endpoint, legacy_counter_endpoint, legacy_counters_endpoint, legacy_gauge_endpoint,
  telemetry_runtime_beacon_endpoint, telemetry_keys_client_side_endpoint,
  telemetry_keys_client_side_beacon_endpoint, telemetry_keys_server_side_endpoint, unlisted,
}

-- `inmemory.AtomicInt64Slice`, with `telemetry.Bucket`.
pub record LatencyCounter (A : Type 0) : Type 0 where
  pub fresh : A
  pub incr : ℕ → A → A
  pub read_all : A → List ℕ
  pub bucket : ℕ → ℕ

pub record EndpointLatencies (A : Type 0) : Type 0 where
  pub auth : A
  pub split_changes : A
  pub segment_changes : A
  pub my_segments : A
  pub impressions_bulk : A
  pub impressions_bulk_beacon : A
  pub impressions_count : A
  pub impressions_count_beacon : A
  pub events_bulk : A
  pub events_bulk_beacon : A
  pub telemetry_config : A
  pub telemetry_runtime : A
  pub telemetry_beacon_runtime : A
  pub legacy_time : A
  pub legacy_times : A
  pub legacy_counter : A
  pub legacy_counters : A
  pub legacy_gauge : A
  pub telemetry_keys_client_side : A
  pub telemetry_keys_client_side_beacon : A
  pub telemetry_keys_server_side : A

module _ {A : Type 0} (counter : LatencyCounter A) where
  -- The latency in milliseconds.
  unfoldable pub record_endpoint_latency : EndpointLatencies A → Endpoint → ℕ → EndpointLatencies A
  record_endpoint_latency p auth_endpoint latency = record p {
    auth = counter.incr (counter.bucket latency) p.auth;
  }
  record_endpoint_latency p split_changes_endpoint latency = record p {
    split_changes = counter.incr (counter.bucket latency) p.split_changes;
  }
  record_endpoint_latency p segment_changes_endpoint latency = record p {
    segment_changes = counter.incr (counter.bucket latency) p.segment_changes;
  }
  record_endpoint_latency p my_segments_endpoint latency = record p {
    my_segments = counter.incr (counter.bucket latency) p.my_segments;
  }
  record_endpoint_latency p impressions_bulk_endpoint latency = record p {
    impressions_bulk = counter.incr (counter.bucket latency) p.impressions_bulk;
  }
  record_endpoint_latency p impressions_bulk_beacon_endpoint latency = record p {
    impressions_bulk_beacon = counter.incr (counter.bucket latency) p.impressions_bulk_beacon;
  }
  record_endpoint_latency p impressions_count_endpoint latency = record p {
    impressions_count = counter.incr (counter.bucket latency) p.impressions_count;
  }
  record_endpoint_latency p impressions_count_beacon_endpoint latency = record p {
    impressions_count_beacon = counter.incr (counter.bucket latency) p.impressions_count_beacon;
  }
  record_endpoint_latency p events_bulk_endpoint latency = record p {
    events_bulk = counter.incr (counter.bucket latency) p.events_bulk;
  }
  record_endpoint_latency p events_bulk_beacon_endpoint latency = record p {
    events_bulk_beacon = counter.incr (counter.bucket latency) p.events_bulk_beacon;
  }
  record_endpoint_latency p telemetry_config_endpoint latency = record p {
    telemetry_runtime = counter.incr (counter.bucket latency) p.telemetry_runtime;
  }
  record_endpoint_latency p telemetry_runtime_endpoint latency = record p {
    telemetry_config = counter.incr (counter.bucket latency) p.telemetry_config;
  }
  record_endpoint_latency p telemetry_runtime_beacon_endpoint latency = record p {
    telemetry_beacon_runtime = counter.incr (counter.bucket latency) p.telemetry_beacon_runtime;
  }
  record_endpoint_latency p legacy_time_endpoint latency = record p {
    legacy_time = counter.incr (counter.bucket latency) p.legacy_time;
  }
  record_endpoint_latency p legacy_times_endpoint latency = record p {
    legacy_times = counter.incr (counter.bucket latency) p.legacy_times;
  }
  record_endpoint_latency p legacy_counter_endpoint latency = record p {
    legacy_counter = counter.incr (counter.bucket latency) p.legacy_counter;
  }
  record_endpoint_latency p legacy_counters_endpoint latency = record p {
    legacy_counters = counter.incr (counter.bucket latency) p.legacy_counters;
  }
  record_endpoint_latency p legacy_gauge_endpoint latency = record p {
    legacy_gauge = counter.incr (counter.bucket latency) p.legacy_gauge;
  }
  record_endpoint_latency p telemetry_keys_client_side_endpoint latency = record p {
    telemetry_keys_client_side = counter.incr (counter.bucket latency) p.telemetry_keys_client_side;
  }
  record_endpoint_latency p telemetry_keys_client_side_beacon_endpoint latency = record p {
    telemetry_keys_client_side_beacon =
        counter.incr (counter.bucket latency) p.telemetry_keys_client_side_beacon;
  }
  record_endpoint_latency p telemetry_keys_server_side_endpoint latency = record p {
    telemetry_keys_server_side = counter.incr (counter.bucket latency) p.telemetry_keys_server_side;
  }
  record_endpoint_latency p (unlisted _) latency = p

  unfoldable pub peek_endpoint_latency : EndpointLatencies A → Endpoint → Option (List ℕ)
  peek_endpoint_latency p auth_endpoint = some (counter.read_all p.auth)
  peek_endpoint_latency p split_changes_endpoint = some (counter.read_all p.split_changes)
  peek_endpoint_latency p segment_changes_endpoint = some (counter.read_all p.segment_changes)
  peek_endpoint_latency p my_segments_endpoint = some (counter.read_all p.my_segments)
  peek_endpoint_latency p impressions_bulk_endpoint = some (counter.read_all p.impressions_bulk)
  peek_endpoint_latency p impressions_bulk_beacon_endpoint =
      some (counter.read_all p.impressions_bulk_beacon)
  peek_endpoint_latency p impressions_count_endpoint = some (counter.read_all p.impressions_count)
  peek_endpoint_latency p impressions_count_beacon_endpoint =
      some (counter.read_all p.impressions_count_beacon)
  peek_endpoint_latency p events_bulk_endpoint = some (counter.read_all p.events_bulk)
  peek_endpoint_latency p events_bulk_beacon_endpoint = some (counter.read_all p.events_bulk_beacon)
  peek_endpoint_latency p telemetry_config_endpoint = some (counter.read_all p.telemetry_config)
  peek_endpoint_latency p telemetry_runtime_endpoint = some (counter.read_all p.telemetry_runtime)
  peek_endpoint_latency p telemetry_runtime_beacon_endpoint =
      some (counter.read_all p.telemetry_beacon_runtime)
  peek_endpoint_latency p legacy_time_endpoint = some (counter.read_all p.legacy_time)
  peek_endpoint_latency p legacy_times_endpoint = some (counter.read_all p.legacy_times)
  peek_endpoint_latency p legacy_counter_endpoint = some (counter.read_all p.legacy_counter)
  peek_endpoint_latency p legacy_counters_endpoint = some (counter.read_all p.legacy_counters)
  peek_endpoint_latency p legacy_gauge_endpoint = some (counter.read_all p.legacy_gauge)
  peek_endpoint_latency p telemetry_keys_client_side_endpoint =
      some (counter.read_all p.telemetry_keys_client_side)
  peek_endpoint_latency p telemetry_keys_client_side_beacon_endpoint =
      some (counter.read_all p.telemetry_keys_client_side_beacon)
  peek_endpoint_latency p telemetry_keys_server_side_endpoint =
      some (counter.read_all p.telemetry_keys_server_side)
  peek_endpoint_latency p (unlisted _) = none

  unfoldable pub new_endpoint_latencies : EndpointLatencies A
  new_endpoint_latencies = record {
    auth = counter.fresh;
    split_changes = counter.fresh;
    segment_changes = counter.fresh;
    my_segments = counter.fresh;
    impressions_bulk = counter.fresh;
    impressions_bulk_beacon = counter.fresh;
    impressions_count = counter.fresh;
    impressions_count_beacon = counter.fresh;
    events_bulk = counter.fresh;
    events_bulk_beacon = counter.fresh;
    telemetry_config = counter.fresh;
    telemetry_runtime = counter.fresh;
    telemetry_beacon_runtime = counter.fresh;
    legacy_time = counter.fresh;
    legacy_times = counter.fresh;
    legacy_counter = counter.fresh;
    legacy_counters = counter.fresh;
    legacy_gauge = counter.fresh;
    telemetry_keys_client_side = counter.fresh;
    telemetry_keys_client_side_beacon = counter.fresh;
    telemetry_keys_server_side = counter.fresh;
  }
