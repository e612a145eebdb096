-- ===== src/App/HealthLaws.antt =====
-- What `HealthManager` answers.
use goupter.Prelude.{
  String, ◌≡◌, Bool, true, false, not, ◌&&◌, ◌||◌, none, List, [], ◌∷◌, string_key, if◌then◌else◌,
  arith,
}
use goupter.Prelude.Dict.{insert}
use goupter.Prelude.Int.{ℤ, pos, ◌+ℤ◌, ◌<ℤ◌, lt→ltb_ℤ}
use goupter.App.Health.{
  HealthStatus, is_down, HealthChecker, HealthManager, ReadyResponse, Clock, run_readiness,
  fresh_readiness, check_readiness, register_readiness, clear_cache, cache_response,
  readiness_handler,
}

-- Some checker answers that it is down.
pub any_down : List HealthChecker → (String → ℤ) → Bool
any_down [] now = false
any_down (checker ∷ checkers) now =
    is_down (checker.check (now checker.name)).status || any_down checkers now

run_readiness_down :
    (checkers : List HealthChecker) (now : String → ℤ) (response : ReadyResponse)
    → ((run_readiness checkers now response).ready
        ≡ (response.ready && not (any_down checkers now)))
      × (is_down (run_readiness checkers now response).status
          ≡ (is_down response.status || any_down checkers now))
unfolding run_readiness any_down
run_readiness_down [] now response = ground arith
run_readiness_down (checker ∷ checkers) now response =
    let result = checker.check (now checker.name) in
    ground (
      arith,
      run_readiness_down checkers now (record response {
        status = if is_down result.status then HealthStatus.down else response.status;
        ready = if is_down result.status then false else response.ready;
        checks = insert checker.name result response.checks;
      }),
    )

-- Without a cached response that is still good, the readiness endpoint answers 503 exactly when
-- some registered checker is down at the time it is asked, and 200 otherwise, also with no checker
-- at all; the status in the body says the same.
pub readiness_handler-any_down :
    (m : HealthManager) (clock : Clock)
    → m.readiness_cache ≡ none
    → let answer = readiness_handler m clock in
      (answer.1 ≡ (if any_down m.readiness_checkers clock.checked then 503 else 200))
      × (is_down answer.2.status ≡ any_down m.readiness_checkers clock.checked)
unfolding readiness_handler check_readiness fresh_readiness
readiness_handler-any_down m clock empty = ground (
  arith,
  run_readiness_down m.readiness_checkers clock.checked (record {
    ready = true;
    status = HealthStatus.up;
    timestamp = clock.start;
    duration = pos 0;
    checks = [];
  }),
)

-- A readiness answer that the checkers gave is repeated to a next call before the end of its
-- time in the cache, at whatever other times that call would ask the checkers, also when one
-- more checker is registered in between; if the cache is cleared in between, the call asks the
-- checkers again.
pub check_readiness_cached :
    (m : HealthManager) (first second : Clock) (checker : HealthChecker)
    → m.readiness_cache ≡ none
    → second.tested <ℤ first.cached +ℤ m.config.cache_ttl
    → let (m', response) = check_readiness m first in
      ((check_readiness (register_readiness m' checker) second).1 ≡ response)
      × ((check_readiness (clear_cache m') second).1 ≡ (fresh_readiness m' second).1)
unfolding check_readiness fresh_readiness register_readiness clear_cache cache_response
check_readiness_cached m first second checker empty soon =
    ground (arith, lt→ltb_ℤ second.tested (first.cached +ℤ m.config.cache_ttl) soon)
