-- ===== src/Health/Application.antt =====
-- splitio/provisional/healthcheck/application/monitor.go: the health of the application, as it is
-- reported. What each counter's `IsHealthy` answers when it is asked is an argument, in the order in
-- which the map of counters is walked; the pointer to the time since when the application is healthy
-- is an Option.
use split_synchronizer.Prelude.Str.{Str}
use split_synchronizer.Prelude.Tests.{nat_beq_iff}
use split_synchronizer.Prelude.{
  ℕ, Bool, true, false, not, ◌&&◌, Option, none, some, List, [], ◌∷◌, ◌++◌, if◌then◌else◌, ◌≡◌, ◌↔◌,
  arith, ◌==◌, nat_eq, map, All, ◌⊎◌, refl,
}

-- The severity that counts, as the constants of basecounter.go number them.
abbrev pub critical : ℕ
critical = 0

pub record HealthyResult : Type 0 where
  pub name : Str
  pub severity : ℕ
  pub healthy : Bool
  pub last_hit : Option ℕ
  pub error_count : ℕ

pub record ItemDto : Type 0 where
  pub name : Str
  pub healthy : Bool
  pub last_hit : Option ℕ
  pub error_count : ℕ
  pub severity : ℕ

pub record HealthDto : Type 0 where
  pub healthy : Bool
  pub healthy_since : Option ℕ
  pub items : List ItemDto

-- The counters themselves stand outside; without a producer there is no counter of the storage.
pub record Monitor : Type 0 where
  pub producer_mode : Bool
  pub healthy_since : Option ℕ

-- What the counters answer: those of the map, then the one of the storage.
pub record Answers : Type 0 where
  pub counters : List HealthyResult
  pub storage : HealthyResult

unfoldable pub new_monitor : Bool → ℕ → Monitor
new_monitor has_storage now = record { producer_mode = has_storage; healthy_since = some now }

abbrev pub item_of : HealthyResult → ItemDto
item_of res = record {
  name = res.name;
  healthy = res.healthy;
  last_hit = res.last_hit;
  error_count = res.error_count;
  severity = res.severity;
}

abbrev pub check_if_is_healthy : List ItemDto → Bool
check_if_is_healthy [] = true
check_if_is_healthy (r ∷ result) =
    if not r.healthy && (r.severity == critical) then false else check_if_is_healthy result

abbrev pub get_healthy_since : Monitor → Bool → Monitor
get_healthy_since m healthy = if not healthy then record m { healthy_since = none } else m

abbrev pub results_of : Monitor → Answers → List HealthyResult
results_of m a = if m.producer_mode then a.counters ++ (a.storage ∷ []) else a.counters

unfoldable pub get_health_status : Monitor → Answers → Monitor × HealthDto
get_health_status m a =
    let items = map item_of (results_of m a) in
    let healthy = check_if_is_healthy items in
    let after = get_healthy_since m healthy in
    (after, record { healthy = healthy; healthy_since = after.healthy_since; items = items })

-- The reports of a monitor that is asked again and again.
abbrev pub run_reports : Monitor → List Answers → Monitor
run_reports m [] = m
run_reports m (a ∷ asked) = run_reports (get_health_status m a).0 asked

-- No critical counter among the answers is unhealthy.
abbrev pub IsWell : HealthyResult → Type 0
IsWell res = res.severity ≡ critical → res.healthy ≡ true

-- The answers to one request leave the monitor's application healthy.
abbrev pub IsClear : Bool → Answers → Type 0
IsClear has_storage a =
    All IsWell (if has_storage then a.counters ++ (a.storage ∷ []) else a.counters)

check_if_is_healthy-item_of :
    (rs : List HealthyResult) → (check_if_is_healthy (map item_of rs) ≡ true) ↔ All IsWell rs
check_if_is_healthy-item_of [] = ground arith
check_if_is_healthy-item_of (r ∷ rs) =
    ground (arith, nat_beq_iff r.severity critical, check_if_is_healthy-item_of rs)

module _ (m : Monitor) where
  -- One report forgets the time for good unless the answers are clear.
  get_health_status-cases :
      (a : Answers)
      → (IsClear m.producer_mode a × ((get_health_status m a).0 ≡ m))
        ⊎ ((¬ IsClear m.producer_mode a)
            × ((get_health_status m a).0 ≡ record m { healthy_since = none }))
  unfolding get_health_status
  get_health_status-cases a = ground (arith, check_if_is_healthy-item_of (results_of m a))

  get_health_status-healthy :
      (a : Answers) → ((get_health_status m a).1.healthy ≡ true) ↔ IsClear m.producer_mode a
  unfolding get_health_status
  get_health_status-healthy a = check_if_is_healthy-item_of (results_of m a)

  get_health_status-since :
      (a : Answers)
      → (get_health_status m a).1.healthy_since ≡ (get_health_status m a).0.healthy_since
  unfolding get_health_status
  get_health_status-since a = refl

run_reports-cases :
    (m : Monitor) (asked : List Answers)
    → (All (IsClear m.producer_mode) asked × (run_reports m asked ≡ m))
      ⊎ ((¬ All (IsClear m.producer_mode) asked)
          × (run_reports m asked ≡ record m { healthy_since = none }))
run_reports-cases m [] = ground arith
run_reports-cases m (a ∷ asked) =
    let silent : Monitor = record m { healthy_since = none } in
    ground (
      arith,
      get_health_status-cases m a,
      run_reports-cases m asked,
      run_reports-cases silent asked,
    )

get_health_status-run_reports :
    (m : Monitor) (asked : List Answers) (a : Answers)
    → let dto = (get_health_status (run_reports m asked) a).1 in
      ((dto.healthy ≡ true) ↔ IsClear m.producer_mode a)
      × ((All (IsClear m.producer_mode) (a ∷ asked) × (dto.healthy_since ≡ m.healthy_since))
          ⊎ ((¬ All (IsClear m.producer_mode) (a ∷ asked)) × (dto.healthy_since ≡ none)))
get_health_status-run_reports m asked a =
    let silent : Monitor = record m { healthy_since = none } in
    ground (
      arith,
      run_reports-cases m asked,
      get_health_status-cases m a,
      get_health_status-healthy m a,
      get_health_status-since m a,
      get_health_status-cases silent a,
      get_health_status-healthy silent a,
      get_health_status-since silent a,
    )

-- However often a new monitor was asked before, its report says that the application is healthy
-- exactly if no critical counter answered that it is unhealthy this time. The time since when is that
-- of the monitor's start exactly if no critical counter ever answered so, and none otherwise, also
-- when all are healthy again.
pub get_health_status-new_monitor :
    (has_storage : Bool) (now : ℕ) (asked : List Answers) (a : Answers)
    → let dto = (get_health_status (run_reports (new_monitor has_storage now) asked) a).1 in
      ((dto.healthy ≡ true) ↔ IsClear has_storage a)
      × ((dto.healthy_since ≡ some now) ↔ All (IsClear has_storage) (a ∷ asked))
      × ((dto.healthy_since ≡ none) ↔ (¬ All (IsClear has_storage) (a ∷ asked)))
unfolding new_monitor
get_health_status-new_monitor has_storage now asked a =
    ground (arith, get_health_status-run_reports (new_monitor has_storage now) asked a)
