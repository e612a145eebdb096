-- ===== src/App/Health.antt =====
-- `HealthManager` of pkg/app/health.go. A checker is its name and what it answers at a time; the checks
-- of one call are made with no other call in between.
use goupter.Prelude.{
  String, Bool, true, false, not, Option, none, some, List, [], ◌∷◌, ◌++◌, string_key,
  if◌then◌else◌, ℕ,
}
use goupter.Prelude.Dict.{insert}
use goupter.Prelude.Int.{ℤ, pos, ◌+ℤ◌, ◌-ℤ◌, ltb_ℤ}

pub data HealthStatus : Type 0 where
  up : HealthStatus
  down : HealthStatus

abbrev pub is_down : HealthStatus → Bool
is_down HealthStatus.up = false
is_down HealthStatus.down = true

pub record CheckResult : Type 0 where
  pub status : HealthStatus
  pub message : String
  pub duration : ℤ
  pub timestamp : ℤ

pub record HealthChecker : Type 0 where
  pub name : String
  pub check : ℤ → CheckResult

-- `PingChecker.Check`: `ping` answers the text of an error, and the clock is read before and after.
unfoldable pub ping_check : Option String → ℤ → ℤ → CheckResult
ping_check (some err) start later = record {
  status = HealthStatus.down;
  message = err;
  duration = later -ℤ start;
  timestamp = start;
}
ping_check none start later = record {
  status = HealthStatus.up;
  message = "";
  duration = later -ℤ start;
  timestamp = start;
}

pub record HealthConfig : Type 0 where
  pub liveness_path : String
  pub readiness_path : String
  pub timeout : ℤ
  pub cache_ttl : ℤ

unfoldable pub default_health_config : HealthConfig
default_health_config = record {
  liveness_path = "/health";
  readiness_path = "/ready";
  timeout = pos 5000000000;
  cache_ttl = pos 1000000000;
}

-- `duration` is what `time.Since(start)` measures.
pub record HealthResponse : Type 0 where
  pub status : HealthStatus
  pub timestamp : ℤ
  pub duration : ℤ
  pub checks : List (String × CheckResult)

pub record ReadyResponse : Type 0 where
  pub ready : Bool
  pub status : HealthStatus
  pub timestamp : ℤ
  pub duration : ℤ
  pub checks : List (String × CheckResult)

pub record HealthManager : Type 0 where
  pub config : HealthConfig
  pub liveness_checkers : List HealthChecker
  pub readiness_checkers : List HealthChecker
  pub liveness_cache : Option HealthResponse
  pub readiness_cache : Option ReadyResponse
  pub liveness_ttl : ℤ
  pub readiness_ttl : ℤ

-- `cfg` is none for nil; a zero `time.Time` comes before every reading of the clock, and is not read
-- while the cache is nil.
unfoldable pub new_health_manager : Option HealthConfig → HealthManager
unfolding default_health_config
new_health_manager cfg = record {
  config = elim cfg [ none ↦ default_health_config | some given ↦ given ];
  liveness_checkers = [];
  readiness_checkers = [];
  liveness_cache = none;
  readiness_cache = none;
  liveness_ttl = pos 0;
  readiness_ttl = pos 0;
}

unfoldable pub register_liveness : HealthManager → HealthChecker → HealthManager
register_liveness m checker = record m { liveness_checkers = m.liveness_checkers ++ checker ∷ [] }

unfoldable pub register_readiness : HealthManager → HealthChecker → HealthManager
register_readiness m checker = record m {
  readiness_checkers = m.readiness_checkers ++ checker ∷ [];
}

-- The readings of the clock by one call: at the cache test, at its start, by the checkers, for the
-- duration and for the expiry of the cache.
pub record Clock : Type 0 where
  pub tested : ℤ
  pub start : ℤ
  pub checked : String → ℤ
  pub done : ℤ
  pub cached : ℤ

-- The loop over the checkers of `CheckLiveness`.
unfoldable pub run_liveness : List HealthChecker → (String → ℤ) → HealthResponse → HealthResponse
run_liveness [] now response = response
run_liveness (checker ∷ checkers) now response =
    let result = checker.check (now checker.name) in
    run_liveness checkers now (record response {
      status = if is_down result.status then HealthStatus.down else response.status;
      checks = insert checker.name result response.checks;
    })

unfoldable pub run_readiness : List HealthChecker → (String → ℤ) → ReadyResponse → ReadyResponse
run_readiness [] now response = response
run_readiness (checker ∷ checkers) now response =
    let result = checker.check (now checker.name) in
    run_readiness checkers now (record response {
      status = if is_down result.status then HealthStatus.down else response.status;
      ready = if is_down result.status then false else response.ready;
      checks = insert checker.name result response.checks;
    })

unfoldable pub cache_response :
    HealthManager → Option HealthResponse → Option ReadyResponse → ℤ → HealthManager
cache_response m none none now = m
cache_response m (some liveness) none now = record m {
  liveness_cache = some liveness;
  liveness_ttl = now +ℤ m.config.cache_ttl;
}
cache_response m none (some readiness) now = record m {
  readiness_cache = some readiness;
  readiness_ttl = now +ℤ m.config.cache_ttl;
}
cache_response m (some liveness) (some readiness) now = record m {
  liveness_cache = some liveness;
  liveness_ttl = now +ℤ m.config.cache_ttl;
  readiness_cache = some readiness;
  readiness_ttl = now +ℤ m.config.cache_ttl;
}

-- The part of `CheckLiveness` that no cached response answers. Without checkers the loop leaves the
-- response as it is, which is what the early return answers.
unfoldable pub fresh_liveness : HealthManager → Clock → HealthManager × HealthResponse
unfolding run_liveness cache_response
fresh_liveness m clock =
    let first : HealthResponse = record {
      status = HealthStatus.up;
      timestamp = clock.start;
      duration = pos 0;
      checks = [];
    } in
    let response = record (run_liveness m.liveness_checkers clock.checked first) {
      duration = clock.done -ℤ clock.start;
    } in
    (cache_response m (some response) none clock.cached, response)

-- `m.livenessCache != nil && time.Now().Before(m.livenessTTL)`
unfoldable pub check_liveness : HealthManager → Clock → HealthManager × HealthResponse
unfolding fresh_liveness
check_liveness m clock = elim m.liveness_cache [
  | none ↦ fresh_liveness m clock
  | some cached ↦ if ltb_ℤ clock.tested m.liveness_ttl then (m, cached) else fresh_liveness m clock
]

unfoldable pub fresh_readiness : HealthManager → Clock → HealthManager × ReadyResponse
unfolding run_readiness cache_response
fresh_readiness m clock =
    let first : ReadyResponse = record {
      ready = true;
      status = HealthStatus.up;
      timestamp = clock.start;
      duration = pos 0;
      checks = [];
    } in
    let response = record (run_readiness m.readiness_checkers clock.checked first) {
      duration = clock.done -ℤ clock.start;
    } in
    (cache_response m none (some response) clock.cached, response)

unfoldable pub check_readiness : HealthManager → Clock → HealthManager × ReadyResponse
unfolding fresh_readiness
check_readiness m clock = elim m.readiness_cache [
  | none ↦ fresh_readiness m clock
  | some cached ↦
      if ltb_ℤ clock.tested m.readiness_ttl then (m, cached) else fresh_readiness m clock
]

unfoldable pub clear_cache : HealthManager → HealthManager
clear_cache m = record m { liveness_cache = none; readiness_cache = none }

-- The handlers: the status code and the response in JSON.
unfoldable pub liveness_handler : HealthManager → Clock → HealthManager × ℕ × HealthResponse
unfolding check_liveness
liveness_handler m clock =
    let (m', response) = check_liveness m clock in
    (m', (if is_down response.status then 503 else 200), response)

unfoldable pub readiness_handler : HealthManager → Clock → HealthManager × ℕ × ReadyResponse
unfolding check_readiness
readiness_handler m clock =
    let (m', response) = check_readiness m clock in
    (m', (if not response.ready then 503 else 200), response)
