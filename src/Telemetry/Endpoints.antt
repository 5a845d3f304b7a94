-- ===== src/Telemetry/Endpoints.antt =====
-- splitio/proxy/storage/telemetry.go: the constants for the endpoints.
use split_synchronizer.Prelude.{ℕ}

-- The constants in the order of their values; `unlisted` is any other int.
pub data Endpoint : Type 0 where
  auth_endpoint : Endpoint
  split_changes_endpoint : Endpoint
  segment_changes_endpoint : Endpoint
  my_segments_endpoint : Endpoint
  impressions_bulk_endpoint : Endpoint
  impressions_bulk_beacon_endpoint : Endpoint
  impressions_count_endpoint : Endpoint
  impressions_count_beacon_endpoint : Endpoint
  events_bulk_endpoint : Endpoint
  events_bulk_beacon_endpoint : Endpoint
  telemetry_config_endpoint : Endpoint
  telemetry_runtime_endpoint : Endpoint
  legacy_time_endpoint : Endpoint
  legacy_times_endpoint : Endpoint
  legacy_counter_endpoint : Endpoint
  legacy_counters_endpoint : Endpoint
  legacy_gauge_endpoint : Endpoint
  telemetry_runtime_beacon_endpoint : Endpoint
  telemetry_keys_client_side_endpoint : Endpoint
  telemetry_keys_client_side_beacon_endpoint : Endpoint
  telemetry_keys_server_side_endpoint : Endpoint
  unlisted : ℕ → Endpoint
