-- ===== src/Telemetry/TimeSlices.antt =====
-- splitio/proxy/storage/telemetryts.go: the same counters once more for each time slice, of which a
-- bounded number is kept. The clock's seconds since 1970 are an argument of each call. Go panics on
-- a width of zero, which the configuration does not give.
use split_synchronizer.Prelude.GoMap.{GoMap, lookup, store, delete}
use split_synchronizer.Prelude.Sorting.{sort_slice}
use split_synchronizer.Prelude.{
  ℕ, ◌-◌, ◌%◌, none, some, List, [], ◌∷◌, map, if◌then◌else◌, length, take, leb, ltb, nat_eq,
}
use split_synchronizer.Telemetry.Endpoints.{Endpoint}
use split_synchronizer.Telemetry.Latencies.{
  LatencyCounter, EndpointLatencies, record_endpoint_latency, new_endpoint_latencies,
}
use split_synchronizer.Telemetry.StatusCodes.{
  EndpointStatusCodes, incr_endpoint_status, new_endpoint_status_codes,
}

-- `timeSliceTelemetry`
pub record TimeSlice (A : Type 0) : Type 0 where
  pub time_slice : ℕ
  pub status_codes : EndpointStatusCodes
  pub latencies : EndpointLatencies A

-- `TimeslicedProxyEndpointTelemetryImpl`, with the two totals of the facade that it wraps.
pub record Timesliced (A : Type 0) : Type 0 where
  pub total_status_codes : EndpointStatusCodes
  pub total_latencies : EndpointLatencies A
  pub by_time_slice : GoMap ℕ (TimeSlice A)
  pub time_slice_width : ℕ
  pub max_time_slices : ℕ

unfoldable pub key_for_time_slice : ℕ → ℕ → ℕ
key_for_time_slice now width = now - now % width

abbrev pub keys : {A : Type 0} → GoMap ℕ A → List ℕ
keys = map (λ e. e.0)

unfoldable pub delete_all : {A : Type 0} → List ℕ → GoMap ℕ A → GoMap ℕ A
unfolding delete
delete_all [] m = m
delete_all (key ∷ ks) m = delete_all ks (delete key m)

-- The keys in ascending order.
unfoldable pub sorted_keys : {A : Type 0} → GoMap ℕ A → List ℕ
unfolding sort_slice
sorted_keys m = sort_slice ltb (keys m)

-- `unsafeRollover`
unfoldable pub unsafe_rollover : {A : Type 0} → ℕ → GoMap ℕ A → GoMap ℕ A
unfolding delete_all sorted_keys
unsafe_rollover most m =
    if leb (length m) most then m else delete_all (take (length m - most) (sorted_keys m)) m

module _ {A : Type 0} (counter : LatencyCounter A) where
  unfoldable pub new_timesliced : ℕ → ℕ → Timesliced A
  unfolding new_endpoint_status_codes new_endpoint_latencies
  new_timesliced width most = record {
    total_status_codes = new_endpoint_status_codes;
    total_latencies = new_endpoint_latencies counter;
    by_time_slice = [];
    time_slice_width = width;
    max_time_slices = most;
  }

  unfoldable pub new_time_slice : ℕ → TimeSlice A
  unfolding new_endpoint_status_codes new_endpoint_latencies
  new_time_slice key = record {
    time_slice = key;
    status_codes = new_endpoint_status_codes;
    latencies = new_endpoint_latencies counter;
  }

  -- The map that `geHistoricForTS` leaves.
  unfoldable pub make_slice : ℕ → ℕ → GoMap ℕ (TimeSlice A) → GoMap ℕ (TimeSlice A)
  unfolding lookup store unsafe_rollover new_time_slice
  make_slice key most m = elim (lookup key m) [
    | some _ ↦ m
    | none ↦
        let grown = store key (new_time_slice key) m in
        if ltb most (length grown) then unsafe_rollover most grown else grown
  ]

  -- A write through the pointer that it returns: lost, if the rollover dropped that slice.
  unfoldable pub write_slice :
      ℕ → (TimeSlice A → TimeSlice A) → GoMap ℕ (TimeSlice A) → GoMap ℕ (TimeSlice A)
  unfolding lookup store
  write_slice key f m = elim (lookup key m) [ none ↦ m | some slice ↦ store key (f slice) m ]

  unfoldable pub record_latency : Timesliced A → Endpoint → ℕ → ℕ → Timesliced A
  unfolding record_endpoint_latency key_for_time_slice make_slice write_slice
  record_latency t ep latency now =
      let key = key_for_time_slice now t.time_slice_width in
      record t {
        total_latencies = record_endpoint_latency counter t.total_latencies ep latency;
        by_time_slice =
            write_slice key
              (λ s. record s { latencies = record_endpoint_latency counter s.latencies ep latency })
              (make_slice key t.max_time_slices t.by_time_slice);
      }

  unfoldable pub incr_status : Timesliced A → Endpoint → ℕ → ℕ → Timesliced A
  unfolding incr_endpoint_status key_for_time_slice make_slice write_slice
  incr_status t ep status now =
      let key = key_for_time_slice now t.time_slice_width in
      record t {
        total_status_codes = incr_endpoint_status t.total_status_codes ep status;
        by_time_slice =
            write_slice key
              (λ s. record s { status_codes = incr_endpoint_status s.status_codes ep status })
              (make_slice key t.max_time_slices t.by_time_slice);
      }
