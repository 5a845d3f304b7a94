-- ===== src/Health/Periodic.antt =====
-- splitio/provisional/healthcheck/application/counter/periodic.go: a counter of errors over a period.
-- The lock makes each call one step; the clock is an argument, and the asynchronous task that calls
-- `resetErrorCount` once a period is a sequence of `reset_error_count` steps.
use split_synchronizer.Prelude.Str.{Str}
use split_synchronizer.Prelude.{
  ℕ, suc, ◌<◌, Bool, true, false, Option, none, some, List, [], ◌∷◌, if◌then◌else◌, ◌≡◌, ◌↔◌, ◌⊎◌,
  arith, ltb,
}

-- The period and the validation function, which the caller supplies, are left to the tasks.
pub record Periodic : Type 0 where
  pub name : Str
  pub severity : ℕ
  pub healthy : Bool
  pub running : Bool
  pub last_hit : Option ℕ
  pub error_count : ℕ
  pub max_errors_allowed_in_period : ℕ

unfoldable pub new_periodic_counter : Str → ℕ → ℕ → Periodic
new_periodic_counter name severity max_errors = record {
  name = name;
  severity = severity;
  healthy = true;
  running = false;
  last_hit = none;
  error_count = 0;
  max_errors_allowed_in_period = max_errors;
}

unfoldable pub reset_error_count : Periodic → Periodic
reset_error_count c = if c.running then record c { error_count = 0; healthy = true } else c

unfoldable pub notify_error : Periodic → ℕ → Periodic
notify_error c now =
    if c.running
    then record c {
      error_count = suc c.error_count;
      healthy = ltb (suc c.error_count) c.max_errors_allowed_in_period;
      last_hit = some now;
    }
    else c

-- `Start`, and one turn of the loop that it starts: the validation function has its own calls of
-- `notify_error`, after which the time of the hit is noted.
unfoldable pub start : Periodic → Periodic
start c = if c.running then c else record c { running = true }

unfoldable pub validated : Periodic → ℕ → Periodic
validated c now = record c { last_hit = some now }

unfoldable pub stop : Periodic → Periodic
stop c = if c.running then record c { running = false } else c

pub data Event : Type 0 where
  started stopped period_over : Event
  failed checked : ℕ → Event

unfoldable pub on_event : Periodic → Event → Periodic
unfolding start stop reset_error_count notify_error validated
on_event c started = start c
on_event c stopped = stop c
on_event c period_over = reset_error_count c
on_event c (failed now) = notify_error c now
on_event c (checked now) = validated c now

abbrev pub run_events : Periodic → List Event → Periodic
run_events c [] = c
run_events c (e ∷ events) = run_events (on_event c e) events

-- The errors that count at the end of a run: those since the latest reset, while the counter runs.
abbrev pub errors_after : Bool → ℕ → List Event → ℕ
errors_after running n [] = n
errors_after running n (started ∷ events) = errors_after true n events
errors_after running n (stopped ∷ events) = errors_after false n events
errors_after running n (period_over ∷ events) =
    errors_after running (if running then 0 else n) events
errors_after running n (failed now ∷ events) =
    errors_after running (if running then suc n else n) events
errors_after running n (checked now ∷ events) = errors_after running n events

-- A counter is healthy while it has no error, or fewer than its maximum.
abbrev pub IsJudged : Periodic → Type 0
IsJudged c =
    (c.healthy ≡ true) ↔ ((c.error_count ≡ 0) ⊎ (c.error_count < c.max_errors_allowed_in_period))

on_event-IsJudged : (c : Periodic) (e : Event) → IsJudged c → IsJudged (on_event c e)
unfolding on_event start stop reset_error_count notify_error validated
on_event-IsJudged c started h = ground arith
on_event-IsJudged c stopped h = ground arith
on_event-IsJudged c period_over h = ground arith
on_event-IsJudged c (failed now) h = ground arith
on_event-IsJudged c (checked now) h = ground arith

run_events-IsJudged :
    (c : Periodic) (events : List Event) → IsJudged c → IsJudged (run_events c events)
run_events-IsJudged c [] h = h
run_events-IsJudged c (e ∷ events) h =
    run_events-IsJudged (on_event c e) events (on_event-IsJudged c e h)

run_events-count :
    (c : Periodic) (events : List Event)
    → ((run_events c events).error_count ≡ errors_after c.running c.error_count events)
      × ((run_events c events).max_errors_allowed_in_period ≡ c.max_errors_allowed_in_period)
unfolding on_event start stop reset_error_count notify_error validated
run_events-count c [] = ground arith
run_events-count c (started ∷ events) = ground (arith, run_events-count (on_event c started) events)
run_events-count c (stopped ∷ events) = ground (arith, run_events-count (on_event c stopped) events)
run_events-count c (period_over ∷ events) =
    ground (arith, run_events-count (on_event c period_over) events)
run_events-count c (failed now ∷ events) =
    ground (arith, run_events-count (on_event c (failed now)) events)
run_events-count c (checked now ∷ events) =
    ground (arith, run_events-count (on_event c (checked now)) events)

-- After any events a new counter is healthy exactly if no error counts, or fewer than its maximum.
-- The errors that count are those since the latest reset; an error or a reset while the counter is
-- stopped is passed over.
pub periodic_healthy :
    (name : Str) (severity max_errors : ℕ) (events : List Event)
    → ((run_events (new_periodic_counter name severity max_errors) events).healthy ≡ true)
      ↔ ((errors_after false 0 events ≡ 0) ⊎ (errors_after false 0 events < max_errors))
unfolding new_periodic_counter
periodic_healthy name severity max_errors events = ground (
  arith,
  run_events-count (new_periodic_counter name severity max_errors) events,
  run_events-IsJudged (new_periodic_counter name severity max_errors) events,
)
