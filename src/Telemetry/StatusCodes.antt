-- ===== src/Telemetry/StatusCodes.antt =====
-- splitio/proxy/storage/telemetry.go: how often each endpoint returned each status code. The mutexes
-- make each call one step.
use split_synchronizer.Prelude.GoMap.{GoMap, lookup, store}
use split_synchronizer.Prelude.{ℕ, suc, Option, none, some, [], nat_eq}
use split_synchronizer.Telemetry.Endpoints.{
  Endpoint, auth_endpoint, split_changes_endpoint, segment_changes_endpoint, my_segments_endpoint,
  impressions_bulk_endpoint, impressions_bulk_beacon_endpoint, impressions_count_endpoint,
  impressions_count_beacon_endpoint, events_bulk_endpoint, events_bulk_beacon_endpoint,
  telemetry_config_endpoint, telemetry_runtime_endpoint, legacy_time_endpoint,
  legacy_times_endpoint, legacy_counter_endpoint, legacy_counters_endpoint, legacy_gauge_endpoint,
  telemetry_runtime_beacon_endpoint, telemetry_keys_client_side_endpoint,
  telemetry_keys_client_side_beacon_endpoint, telemetry_keys_server_side_endpoint, unlisted,
}

-- `statusCodeMap`: how often each status code was returned.
abbrev pub StatusCodeMap : Type 0
StatusCodeMap = GoMap ℕ ℕ

abbrev pub code_count : Option ℕ → ℕ
code_count none = 0
code_count (some n) = n

-- `s.codes[code]++`
unfoldable pub incr_code : ℕ → StatusCodeMap → StatusCodeMap
unfolding lookup store
incr_code code m = store code (suc (code_count (lookup code m))) m

pub record EndpointStatusCodes : Type 0 where
  pub auth : StatusCodeMap
  pub split_changes : StatusCodeMap
  pub segment_changes : StatusCodeMap
  pub my_segments : StatusCodeMap
  pub impressions_bulk : StatusCodeMap
  pub impressions_bulk_beacon : StatusCodeMap
  pub impressions_count : StatusCodeMap
  pub impressions_count_beacon : StatusCodeMap
  pub events_bulk : StatusCodeMap
  pub events_bulk_beacon : StatusCodeMap
  pub telemetry_config : StatusCodeMap
  pub telemetry_runtime : StatusCodeMap
  pub telemetry_beacon_runtime : StatusCodeMap
  pub legacy_time : StatusCodeMap
  pub legacy_times : StatusCodeMap
  pub legacy_counter : StatusCodeMap
  pub legacy_counters : StatusCodeMap
  pub legacy_gauge : StatusCodeMap
  pub telemetry_keys_client_side : StatusCodeMap
  pub telemetry_keys_client_side_beacon : StatusCodeMap
  pub telemetry_keys_server_side : StatusCodeMap

unfoldable pub incr_endpoint_status : EndpointStatusCodes → Endpoint → ℕ → EndpointStatusCodes
unfolding incr_code
incr_endpoint_status e auth_endpoint status = record e { auth = incr_code status e.auth }
incr_endpoint_status e split_changes_endpoint status = record e {
  split_changes = incr_code status e.split_changes;
}
incr_endpoint_status e segment_changes_endpoint status = record e {
  segment_changes = incr_code status e.segment_changes;
}
incr_endpoint_status e my_segments_endpoint status = record e {
  my_segments = incr_code status e.my_segments;
}
incr_endpoint_status e impressions_bulk_endpoint status = record e {
  impressions_bulk = incr_code status e.impressions_bulk;
}
incr_endpoint_status e impressions_bulk_beacon_endpoint status = record e {
  impressions_bulk_beacon = incr_code status e.impressions_bulk_beacon;
}
incr_endpoint_status e impressions_count_endpoint status = record e {
  impressions_count = incr_code status e.impressions_count;
}
incr_endpoint_status e impressions_count_beacon_endpoint status = record e {
  impressions_count_beacon = incr_code status e.impressions_count_beacon;
}
incr_endpoint_status e events_bulk_endpoint status = record e {
  events_bulk = incr_code status e.events_bulk;
}
incr_endpoint_status e events_bulk_beacon_endpoint status = record e {
  events_bulk_beacon = incr_code status e.events_bulk_beacon;
}
incr_endpoint_status e telemetry_config_endpoint status = record e {
  telemetry_config = incr_code status e.telemetry_config;
}
incr_endpoint_status e telemetry_runtime_endpoint status = record e {
  telemetry_runtime = incr_code status e.telemetry_runtime;
}
incr_endpoint_status e telemetry_runtime_beacon_endpoint status = record e {
  telemetry_beacon_runtime = incr_code status e.telemetry_beacon_runtime;
}
incr_endpoint_status e legacy_time_endpoint status = record e {
  legacy_time = incr_code status e.legacy_time;
}
incr_endpoint_status e legacy_times_endpoint status = record e {
  legacy_times = incr_code status e.legacy_times;
}
incr_endpoint_status e legacy_counter_endpoint status = record e {
  legacy_counter = incr_code status e.legacy_counter;
}
incr_endpoint_status e legacy_counters_endpoint status = record e {
  legacy_counters = incr_code status e.legacy_counters;
}
incr_endpoint_status e legacy_gauge_endpoint status = record e {
  legacy_gauge = incr_code status e.legacy_gauge;
}
incr_endpoint_status e telemetry_keys_client_side_endpoint status = record e {
  telemetry_keys_client_side = incr_code status e.telemetry_keys_client_side;
}
incr_endpoint_status e telemetry_keys_client_side_beacon_endpoint status = record e {
  telemetry_keys_client_side_beacon = incr_code status e.telemetry_keys_client_side_beacon;
}
incr_endpoint_status e telemetry_keys_server_side_endpoint status = record e {
  telemetry_keys_server_side = incr_code status e.telemetry_keys_server_side;
}
incr_endpoint_status e (unlisted _) status = e

-- A copy of the endpoint's map, and nil for no endpoint.
unfoldable pub peek_endpoint_status : EndpointStatusCodes → Endpoint → Option StatusCodeMap
peek_endpoint_status e auth_endpoint = some e.auth
peek_endpoint_status e split_changes_endpoint = some e.split_changes
peek_endpoint_status e segment_changes_endpoint = some e.segment_changes
peek_endpoint_status e my_segments_endpoint = some e.my_segments
peek_endpoint_status e impressions_bulk_endpoint = some e.impressions_bulk
peek_endpoint_status e impressions_bulk_beacon_endpoint = some e.impressions_bulk_beacon
peek_endpoint_status e impressions_count_endpoint = some e.impressions_count
peek_endpoint_status e impressions_count_beacon_endpoint = some e.impressions_count_beacon
peek_endpoint_status e events_bulk_endpoint = some e.events_bulk
peek_endpoint_status e events_bulk_beacon_endpoint = some e.events_bulk_beacon
peek_endpoint_status e telemetry_config_endpoint = some e.telemetry_config
peek_endpoint_status e telemetry_runtime_endpoint = some e.telemetry_runtime
peek_endpoint_status e telemetry_runtime_beacon_endpoint = some e.telemetry_beacon_runtime
peek_endpoint_status e legacy_time_endpoint = some e.legacy_time
peek_endpoint_status e legacy_times_endpoint = some e.legacy_times
peek_endpoint_status e legacy_counter_endpoint = some e.legacy_counter
peek_endpoint_status e legacy_counters_endpoint = some e.legacy_counters
peek_endpoint_status e legacy_gauge_endpoint = some e.legacy_gauge
peek_endpoint_status e telemetry_keys_client_side_endpoint = some e.telemetry_keys_client_side
peek_endpoint_status e telemetry_keys_client_side_beacon_endpoint =
    some e.telemetry_keys_client_side_beacon
peek_endpoint_status e telemetry_keys_server_side_endpoint = some e.telemetry_keys_server_side
peek_endpoint_status e (unlisted _) = none

unfoldable pub new_endpoint_status_codes : EndpointStatusCodes
new_endpoint_status_codes = record {
  auth = [];
  split_changes = [];
  segment_changes = [];
  my_segments = [];
  impressions_bulk = [];
  impressions_bulk_beacon = [];
  impressions_count = [];
  impressions_count_beacon = [];
  events_bulk = [];
  events_bulk_beacon = [];
  telemetry_config = [];
  telemetry_runtime = [];
  telemetry_beacon_runtime = [];
  legacy_time = [];
  legacy_times = [];
  legacy_counter = [];
  legacy_counters = [];
  legacy_gauge = [];
  telemetry_keys_client_side = [];
  telemetry_keys_client_side_beacon = [];
  telemetry_keys_server_side = [];
}
