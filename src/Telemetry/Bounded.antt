-- ===== src/Telemetry/Bounded.antt =====
-- What every call of the time-sliced counters keeps, over any run of calls.
use split_synchronizer.Prelude.GoMap.{
  GoMap, lookup, store, delete, length-store, Distinct, store-Distinct, delete-Distinct,
}
use split_synchronizer.Prelude.{
  ℕ, ◌-◌, take, ◌≤◌, List, [], ◌∷◌, length, leb, ltb, nat_eq, ◌≡◌, refl, arith, Option-cases,
  Bool-cases, inl, inr, ◌∙◌, sym, subst,
}
use split_synchronizer.Telemetry.Rollover.{length-unsafe_rollover}
use split_synchronizer.Telemetry.TimeSlices.{
  TimeSlice, Timesliced, sorted_keys, delete_all, unsafe_rollover, new_timesliced, new_time_slice,
  make_slice, write_slice, record_latency, incr_status,
}
use split_synchronizer.Telemetry.Endpoints.{Endpoint}
use split_synchronizer.Telemetry.Latencies.{LatencyCounter}

delete_all-Distinct :
    {A : Type 0} (ks : List ℕ) (m : GoMap ℕ A) → Distinct m → Distinct (delete_all ks m)
unfolding delete_all
delete_all-Distinct [] m d = d
delete_all-Distinct (k ∷ ks) m d = delete_all-Distinct ks (delete k m) (delete-Distinct k m d)

unsafe_rollover-Distinct :
    {A : Type 0} (most : ℕ) (m : GoMap ℕ A) → Distinct m → Distinct (unsafe_rollover most m)
unfolding unsafe_rollover
unsafe_rollover-Distinct most m d = elim (Bool-cases (leb (length m) most)) [
  | inl t ↦ rw t d
  | inr f ↦ rw f (delete_all-Distinct (take (length m - most) (sorted_keys m)) m d)
]

-- At most the allowed number of slices, each key once.
pub record IsBounded {A : Type 0} (most : ℕ) (m : GoMap ℕ (TimeSlice A)) : Type 0 where
  pub distinct : Distinct m
  pub bounded : length m ≤ most

pub data Call : Type 0 where
  latency_recorded status_counted : Endpoint → ℕ → ℕ → Call

module _ {A : Type 0} (counter : LatencyCounter A) where
  make_slice-IsBounded :
      (key most : ℕ) (m : GoMap ℕ (TimeSlice A))
      → IsBounded most m
      → IsBounded most (make_slice counter key most m)
  unfolding make_slice
  make_slice-IsBounded key most m v = elim (Option-cases (lookup key m)) [
    | inr (s, e) ↦ rw (e, make_slice) v
    | inl e ↦
        let grown = store key (new_time_slice counter key) m in
        let d : Distinct grown = store-Distinct key (new_time_slice counter key) m v.distinct in
        elim (Bool-cases (ltb most (length grown))) [
          | inl t ↦
              rw (e, t, make_slice)
                (record {
                  distinct = unsafe_rollover-Distinct most grown d;
                  bounded = length-unsafe_rollover most grown d;
                })
          | inr f ↦ rw (e, f, make_slice) (record { distinct = d; bounded = ground arith })
        ]
  ]

  write_slice-IsBounded :
      (key most : ℕ) (f : TimeSlice A → TimeSlice A) (m : GoMap ℕ (TimeSlice A))
      → IsBounded most m
      → IsBounded most (write_slice counter key f m)
  unfolding write_slice
  write_slice-IsBounded key most f m v = elim (Option-cases (lookup key m)) [
    | inl e ↦ rw (e, write_slice) v
    | inr (s, e) ↦
        rw (e, write_slice)
          (record {
            distinct = store-Distinct key (f s) m v.distinct;
            bounded = ground (arith, v.bounded, length-store key (f s) m);
          })
  ]

  abbrev pub call : Timesliced A → Call → Timesliced A
  call t (latency_recorded ep latency now) = record_latency counter t ep latency now
  call t (status_counted ep status now) = incr_status counter t ep status now

  abbrev pub run : Timesliced A → List Call → Timesliced A
  run t [] = t
  run t (c ∷ calls) = run (call t c) calls

  call-IsBounded :
      (t : Timesliced A) (c : Call)
      → IsBounded t.max_time_slices t.by_time_slice
      → ((call t c).max_time_slices ≡ t.max_time_slices)
        × IsBounded t.max_time_slices (call t c).by_time_slice
  unfolding record_latency incr_status
  call-IsBounded t (latency_recorded ep latency now) v = (
    refl,
    write_slice-IsBounded _ t.max_time_slices _ _
        (make_slice-IsBounded _ t.max_time_slices t.by_time_slice v),
  )
  call-IsBounded t (status_counted ep status now) v = (
    refl,
    write_slice-IsBounded _ t.max_time_slices _ _
        (make_slice-IsBounded _ t.max_time_slices t.by_time_slice v),
  )

  run-IsBounded :
      (most : ℕ) (t : Timesliced A) (calls : List Call)
      → t.max_time_slices ≡ most
      → IsBounded most t.by_time_slice
      → IsBounded most (run t calls).by_time_slice
  run-IsBounded most t [] e v = v
  run-IsBounded most t (c ∷ calls) e v =
      let (same, kept) = call-IsBounded t c (subst (λ n. IsBounded n t.by_time_slice) (sym e) v) in
      run-IsBounded most (call t c) calls (same ∙ e)
        (subst (λ n. IsBounded n (call t c).by_time_slice) e kept)

  -- However many requests are recorded, and at whatever times, at most the configured number of
  -- time slices is held.
  pub run_bounded :
      (width most : ℕ) (calls : List Call)
      → length (run (new_timesliced counter width most) calls).by_time_slice ≤ most
  unfolding new_timesliced
  run_bounded width most calls =
      (run-IsBounded most (new_timesliced counter width most) calls refl
        (record { distinct = tt; bounded = omega arith })).bounded
