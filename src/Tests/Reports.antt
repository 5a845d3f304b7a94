-- ===== src/Tests/Reports.antt =====
-- Reports of the application's health, for a producer whose feature flags time out once, and of the
-- health of two services, of which one has failed.
use split_synchronizer.Health.Application.{
  HealthyResult, Answers, IsClear, new_monitor, run_reports, get_health_status,
  get_health_status-new_monitor,
}
use split_synchronizer.Health.ByPercentage.{
  Severity, critical, degraded, ByPercentage, new_counter_by_percentage, is_healthy,
}
use split_synchronizer.Health.Services.{
  down_status, degraded_status, healthy_status, IsFailing, item_of, get_health_status-verdict,
}
use split_synchronizer.Health.Services
use split_synchronizer.Prelude.Str.{Str, str}
use split_synchronizer.Prelude.{
  Bool, true, false, none, some, [], ◌∷◌, ◌≡◌, ◌↔◌, refl, All, Any, List, map,
}

abbrev answer : Str → Bool → HealthyResult
answer name healthy = record {
  name = name;
  severity = 0;
  healthy = healthy;
  last_hit = none;
  error_count = 0;
}

abbrev answers_of : Bool → Answers
answers_of splits = record {
  counters = answer (str "Splits") splits ∷ answer (str "Segments") true ∷ [];
  storage = answer (str "Storage") true;
}

healthy_again :
    let dto =
      (get_health_status
        (run_reports (new_monitor true 5) (answers_of false ∷ []))
        (answers_of true)).1 in
    dto.healthy_since ≡ none
unfolding new_monitor get_health_status
healthy_again = refl

get_health_status-new_monitor_example :
    let dto =
      (get_health_status
        (run_reports (new_monitor true 5) (answers_of false ∷ []))
        (answers_of true)).1 in
    ((dto.healthy ≡ true) ↔ IsClear true (answers_of true))
    × ((dto.healthy_since ≡ some 5) ↔ All (IsClear true) (answers_of true ∷ answers_of false ∷ []))
    × ((dto.healthy_since ≡ none)
        ↔ (¬ All (IsClear true) (answers_of true ∷ answers_of false ∷ [])))
get_health_status-new_monitor_example =
    get_health_status-new_monitor true 5 (answers_of false ∷ []) (answers_of true)

abbrev service : Str → Severity → Bool → ByPercentage
service url severity healthy =
    record (new_counter_by_percentage
      (record {
        max_len = 2;
        percentage_to_be_healthy = 50;
        name = url;
        service_url = url;
        service_health_endpoint = [];
        severity = severity;
      })
      5) { healthy = healthy }

abbrev services : List ByPercentage
services = service (str "sdk") critical true ∷ service (str "events") degraded false ∷ []

events_degraded : (Services.get_health_status services).status ≡ degraded_status
unfolding Services.get_health_status is_healthy new_counter_by_percentage
events_degraded = refl

get_health_status-verdict_example :
    let dto = Services.get_health_status services in
    let down = Any (IsFailing critical) services in
    let poor = Any (IsFailing degraded) services in
    ((dto.status ≡ down_status) ↔ down)
    × ((dto.status ≡ degraded_status) ↔ ((¬ down) × poor))
    × ((dto.status ≡ healthy_status) ↔ ((¬ down) × (¬ poor)))
    × (dto.items ≡ map (λ c. item_of (is_healthy c)) services)
get_health_status-verdict_example = get_health_status-verdict services
