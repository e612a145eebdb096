-- ===== src/Examples/App.antt =====
-- Examples about pkg/app.
use goupter.Prelude.{
  not, is_none, String, ◌≡◌, refl, zero, ◌↔◌, true, false, Option, none, some, [], ◌∷◌, ℕ, arith,
  if◌then◌else◌,
}
use goupter.Prelude.Int.{ℤ, pos, ◌+ℤ◌, ltb_ℤ}
use goupter.App.Health.{
  HealthStatus, is_down, HealthChecker, HealthManager, Clock, new_health_manager,
  register_readiness, check_readiness, fresh_readiness, clear_cache, readiness_handler,
}
use goupter.App.HealthLaws.{any_down, readiness_handler-any_down, check_readiness_cached}
use goupter.App.Lifecycle.{App, Call, RunError, shutdown, run}
use goupter.App.LifecycleLaws.{
  unlogged, shutdown_plan, shutdown-shutdown_plan, all_succeed, run_succeeds, run_each, run_failed,
}

-- Down from 100 on.
abbrev db_checker : HealthChecker
db_checker = record {
  name = "db";
  check = λ now. record {
    status = if ltb_ℤ now (pos 100) then HealthStatus.up else HealthStatus.down;
    message = "";
    duration = pos 1;
    timestamp = now;
  };
}

abbrev manager : HealthManager
unfolding new_health_manager register_readiness
manager = register_readiness (new_health_manager none) db_checker

abbrev at_time : ℤ → Clock
at_time t = record { tested = t; start = t; checked = λ name. t; done = t; cached = t }

answers_503 : (readiness_handler manager (at_time (pos 100))).1 ≡ 503
unfolding readiness_handler manager
answers_503 = refl

readiness_handler-any_down_example :
    let answer = readiness_handler manager (at_time (pos 100)) in
    (answer.1
      ≡ (if any_down manager.readiness_checkers (at_time (pos 100)).checked then 503 else 200))
    × (is_down answer.2.status ≡ any_down manager.readiness_checkers (at_time (pos 100)).checked)
unfolding manager
readiness_handler-any_down_example = readiness_handler-any_down manager (at_time (pos 100)) refl

check_readiness_cached_example :
    let (m', response) = check_readiness manager (at_time (pos 99)) in
    ((check_readiness (register_readiness m' db_checker) (at_time (pos 200))).1 ≡ response)
    × ((check_readiness (clear_cache m') (at_time (pos 200))).1
        ≡ (fresh_readiness m' (at_time (pos 200))).1)
unfolding manager ◌+ℤ◌
check_readiness_cached_example =
    check_readiness_cached manager (at_time (pos 99)) (at_time (pos 200)) db_checker refl
      (omega arith)

-- Hooks are numbers; hook 0 fails, and so does stopping the HTTP server.
abbrev outcome : Call ℕ → Option String
outcome (Call.hook zero) = some "refused"
outcome Call.stop_http = some "timeout"
outcome _ = none

abbrev app : App ℕ
app = record {
  config = none;
  has_logger = true;
  has_http = true;
  has_grpc = false;
  has_db = true;
  has_cache = true;
  has_discovery = false;
  has_mq = false;
  before_start = 1 ∷ 0 ∷ 2 ∷ [];
  after_start = [];
  before_stop = 0 ∷ 3 ∷ [];
  after_stop = 4 ∷ [];
  running = false;
}

abbrev running_app : App ℕ
running_app = record app { running = true }

shutdown_run :
    unlogged (shutdown outcome running_app).1
    ≡ Call.hook 0
      ∷ Call.hook 3
      ∷ Call.stop_http
      ∷ Call.close_cache
      ∷ Call.sql_db
      ∷ Call.close_db
      ∷ Call.hook 4
      ∷ Call.sync_log
      ∷ Call.info "application stopped"
      ∷ []
unfolding shutdown unlogged
shutdown_run = refl

shutdown-shutdown_plan_example :
    (unlogged (shutdown outcome running_app).1 ≡ shutdown_plan running_app true)
    × ((shutdown outcome running_app).0.running ≡ false)
    × (shutdown outcome (shutdown outcome running_app).0 ≡ ((shutdown outcome running_app).0, []))
shutdown-shutdown_plan_example = shutdown-shutdown_plan outcome running_app refl

run_succeeds_example :
    (((run outcome app).2 ≡ none) ↔ (
      (app.running ≡ false)
      × (all_succeed outcome app.before_start ≡ true)
      × (all_succeed outcome app.after_start ≡ true)))
    × ((run outcome app).0.running ≡ not (is_none (run outcome app).2))
run_succeeds_example = run_succeeds outcome app

run_failed_example :
    run_each {E = String} ((λ call. none) ∷ (λ call. none) ∷ []) (run outcome app).0 ≡ (
      (run outcome app).0,
      ([], some RunError.already_running) ∷ ([], some RunError.already_running) ∷ [],
    )
unfolding run
run_failed_example =
    run_failed outcome app (RunError.before_start_failed "refused")
      ((λ call. none) ∷ (λ call. none) ∷ []) refl
