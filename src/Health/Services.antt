-- ===== src/Health/Services.antt =====
-- splitio/provisional/healthcheck/services/monitor.go: the health of the services that the program
-- uses. The counters are those of Health.ByPercentage; their tasks, which call the services, stand
-- outside.
use mathlib.Core.List.{append_assoc, append-nil}
use split_synchronizer.Health.ByPercentage.{
  Severity, critical, degraded, low, ByPercentage, Config, HealthyResult, is_healthy,
  new_counter_by_percentage,
}
use split_synchronizer.Prelude.Str.{Str}
use split_synchronizer.Prelude.{
  ℕ, suc, Bool, false, not, Option, List, [], ◌∷◌, if◌then◌else◌, ◌≡◌, ◌↔◌, arith, ltb, map, Any,
  sym, ◌∙◌, ap, ◌⊎◌, ◌<◌, ◌++◌,
}

pub data Status : Type 0 where
  healthy_status down_status degraded_status : Status

pub record ItemDto : Type 0 where
  pub service : Str
  pub healthy : Bool
  pub message : Str
  pub healthy_since : Option ℕ
  pub last_hit : Option ℕ

pub record HealthDto : Type 0 where
  pub status : Status
  pub items : List ItemDto

-- `NewMonitorImp`: a monitor is its counters.
unfoldable pub new_monitor : ℕ → List Config → List ByPercentage
new_monitor now [] = []
new_monitor now (cfg ∷ cfgs) = new_counter_by_percentage cfg now ∷ new_monitor now cfgs

abbrev pub item_of : HealthyResult → ItemDto
item_of res = record {
  service = res.url;
  healthy = res.healthy;
  message = res.last_message;
  healthy_since = res.healthy_since;
  last_hit = res.last_hit;
}

-- What the loop over the counters has gathered so far.
pub record Gathered : Type 0 where
  pub items : List ItemDto
  pub critical_count : ℕ
  pub degraded_count : ℕ

abbrev pub counted : Severity → Gathered → Gathered
counted critical g = record g { critical_count = suc g.critical_count }
counted degraded g = record g { degraded_count = suc g.degraded_count }
counted low g = g

abbrev pub gather_one : HealthyResult → Gathered → Gathered
gather_one res g =
    let noted = if not res.healthy then counted res.severity g else g in
    record noted { items = noted.items ++ (item_of res ∷ []) }

abbrev pub gather : List ByPercentage → Gathered → Gathered
gather [] g = g
gather (c ∷ counters) g = gather counters (gather_one (is_healthy c) g)

abbrev pub status_of : Gathered → Status
status_of g =
    if ltb 0 g.critical_count
    then down_status
    else (if ltb 0 g.degraded_count then degraded_status else healthy_status)

unfoldable pub get_health_status : List ByPercentage → HealthDto
get_health_status counters =
    let g = gather counters (record { items = []; critical_count = 0; degraded_count = 0 }) in
    record { status = status_of g; items = g.items }

-- A counter of the given severity is unhealthy.
abbrev pub IsFailing : Severity → ByPercentage → Type 0
IsFailing severity c = (c.severity ≡ severity) × (c.healthy ≡ false)

counted-counts :
    (s : Severity) (h : Bool) (g : Gathered)
    → ((0 < (if not h then counted s g else g).critical_count)
        ↔ ((0 < g.critical_count) ⊎ ((s ≡ critical) × (h ≡ false))))
      × ((0 < (if not h then counted s g else g).degraded_count)
          ↔ ((0 < g.degraded_count) ⊎ ((s ≡ degraded) × (h ≡ false))))
counted-counts critical h g = ground arith
counted-counts degraded h g = ground arith
counted-counts low h g = ground arith

gather-counts :
    (counters : List ByPercentage) (g : Gathered)
    → ((0 < (gather counters g).critical_count)
        ↔ ((0 < g.critical_count) ⊎ Any (IsFailing critical) counters))
      × ((0 < (gather counters g).degraded_count)
          ↔ ((0 < g.degraded_count) ⊎ Any (IsFailing degraded) counters))
unfolding is_healthy
gather-counts [] g = ground arith
gather-counts (c ∷ counters) g = ground (
  arith,
  counted-counts c.severity c.healthy g,
  gather-counts counters (gather_one (is_healthy c) g),
)

counted-items :
    (s : Severity) (h : Bool) (g : Gathered) → (if not h then counted s g else g).items ≡ g.items
counted-items critical h g = ground arith
counted-items degraded h g = ground arith
counted-items low h g = ground arith

gather-items :
    (counters : List ByPercentage) (g : Gathered)
    → (gather counters g).items ≡ g.items ++ map (λ c. item_of (is_healthy c)) counters
unfolding is_healthy
gather-items [] g = sym (append-nil g.items)
gather-items (c ∷ counters) g =
    let item = item_of (is_healthy c) in
    let one = gather_one (is_healthy c) g in
    gather-items counters one
    ∙ append_assoc (if not c.healthy then counted c.severity g else g).items (item ∷ [])
        (map (λ d. item_of (is_healthy d)) counters)
    ∙ ap (λ is. is ++ item ∷ map (λ d. item_of (is_healthy d)) counters)
        (counted-items c.severity c.healthy g)

status_of-cases :
    (g : Gathered)
    → ((status_of g ≡ down_status) ↔ (0 < g.critical_count))
      × ((status_of g ≡ degraded_status) ↔ ((g.critical_count ≡ 0) × (0 < g.degraded_count)))
      × ((status_of g ≡ healthy_status) ↔ ((g.critical_count ≡ 0) × (g.degraded_count ≡ 0)))
status_of-cases g = ground arith

-- The services are reported as down exactly if a critical counter is unhealthy, as degraded exactly
-- if none is but one whose severity is degraded, and as healthy otherwise, whatever the counters of
-- low severity say. There is one item for each counter, in the counters' order, with its answer.
pub get_health_status-verdict :
    (counters : List ByPercentage)
    → let dto = get_health_status counters in
      let down = Any (IsFailing critical) counters in
      let poor = Any (IsFailing degraded) counters in
      ((dto.status ≡ down_status) ↔ down)
      × ((dto.status ≡ degraded_status) ↔ ((¬ down) × poor))
      × ((dto.status ≡ healthy_status) ↔ ((¬ down) × (¬ poor)))
      × (dto.items ≡ map (λ c. item_of (is_healthy c)) counters)
unfolding get_health_status
get_health_status-verdict counters =
    let none_yet : Gathered = record { items = []; critical_count = 0; degraded_count = 0 } in
    ground (
      arith,
      gather-counts counters none_yet,
      gather-items counters none_yet,
      status_of-cases (gather counters none_yet),
    )
