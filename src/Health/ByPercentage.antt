-- ===== src/Health/ByPercentage.antt =====
-- splitio/provisional/healthcheck/services/counter/bypercentage.go: a service is healthy while enough
-- of its latest answers were 200. The mutex makes each call one step; the clock and the answers of
-- the service are arguments. The background task calls `NotifyHit` once a period.
pub mod Sliding
pub mod Window
use split_synchronizer.Prelude.Str.{Str}
use split_synchronizer.Prelude.{
  ℕ, suc, ◌+◌, ◌*◌, ◌/◌, Bool, true, false, not, ◌&&◌, Option, none, some, List, [], ◌∷◌, ◌++◌,
  if◌then◌else◌, length, ℤ, pos, int_eq, ◌==◌, nat_beq, leb,
}

pub data Severity : Type 0 where
  critical degraded low : Severity

pub record ByPercentage : Type 0 where
  pub severity : Severity
  pub last_message : Str
  pub last_hit : Option ℕ
  pub healthy : Bool
  pub healthy_since : Option ℕ
  pub name : Str
  pub url : Str
  pub max_len : ℕ
  pub percentage_to_be_healthy : ℕ
  pub cache : List ℤ

pub record Config : Type 0 where
  pub max_len : ℕ
  pub percentage_to_be_healthy : ℕ
  pub name : Str
  pub service_url : Str
  pub service_health_endpoint : Str
  pub severity : Severity

unfoldable pub new_counter_by_percentage : Config → ℕ → ByPercentage
new_counter_by_percentage config now = record {
  severity = config.severity;
  last_message = [];
  last_hit = none;
  healthy = true;
  healthy_since = some now;
  name = config.name;
  url = config.service_url ++ config.service_health_endpoint;
  max_len = config.max_len;
  percentage_to_be_healthy = config.percentage_to_be_healthy;
  cache = [];
}

-- How many of the answers were 200.
unfoldable pub ok_status : List ℤ → ℕ
ok_status [] = 0
ok_status (code ∷ codes) = let n = ok_status codes in if code == pos 200 then suc n else n

-- `okstatus * 100 / c.cache.Len()`
abbrev pub percentage_ok : List ℤ → ℕ
percentage_ok codes = ok_status codes * 100 / length codes

unfoldable pub calculate_healthy : ByPercentage → ℕ → ByPercentage
calculate_healthy c now =
    if nat_beq (length c.cache) 0
    then record c { healthy = true }
    else (let is_healthy = leb c.percentage_to_be_healthy (percentage_ok c.cache) in
        let noted =
          if is_healthy && not c.healthy
          then record c { healthy_since = some now; last_message = [] }
          else (if not is_healthy then record c { healthy_since = none } else c) in
        record noted { healthy = is_healthy })

-- `c.cache.Remove(c.cache.Front())`; on an empty list the code panics.
abbrev pub remove_front : List ℤ → List ℤ
remove_front [] = []
remove_front (code ∷ codes) = codes

unfoldable pub notify_hit : ByPercentage → ℤ → Str → ℕ → ByPercentage
unfolding calculate_healthy
notify_hit c status_code message now =
    let kept = if nat_beq (length c.cache) c.max_len then remove_front c.cache else c.cache in
    let pushed = record c {
      cache = kept ++ status_code ∷ [];
      last_message = if status_code == pos 200 then c.last_message else message;
    } in
    record (calculate_healthy pushed now) { last_hit = some now }

pub record HealthyResult : Type 0 where
  pub url : Str
  pub severity : Severity
  pub healthy : Bool
  pub last_message : Str
  pub healthy_since : Option ℕ
  pub last_hit : Option ℕ

unfoldable pub is_healthy : ByPercentage → HealthyResult
is_healthy c = record {
  url = c.url;
  severity = c.severity;
  healthy = c.healthy;
  last_message = c.last_message;
  healthy_since = c.healthy_since;
  last_hit = c.last_hit;
}
