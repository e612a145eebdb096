-- ===== src/Examples/Services.antt =====
-- Examples about pkg/discovery and pkg/database.
use goupter.Prelude.{◌≡◌, refl, String, true, none, some, List, [], ◌∷◌, string_key, arith}
use goupter.Prelude.Int.{pos}
use goupter.Prelude.Dict.{lookup}
use goupter.Database.SlowQuery.{
  SlowQueryLogger, sql_slow, sql_error, new_slow_query_logger, log_mode, trace, trace-log_mode,
}
use goupter.Discovery.Consul.{
  HealthStatus, get_health_status, ServiceEntry, service_of, services_of, watch_loop, CheckTarget,
  check_of, close, is_cancelled, Use, watch_name, close_all, use_all, new_discovery,
}
use goupter.Discovery.ConsulLaws.{use_all-close}

abbrev quiet : SlowQueryLogger
unfolding new_slow_query_logger
quiet = new_slow_query_logger true "warn" (pos 0)

-- Exactly at the threshold.
slow : trace {E = String} quiet (pos 200000000) none ≡ some sql_slow
unfolding trace quiet
slow = refl

failed : trace {E = String} quiet (pos 200000000) (some "e") ≡ some (sql_error "e")
unfolding trace quiet
failed = refl

fast : trace {E = String} quiet (pos 5) none ≡ none
unfolding trace quiet
fast = refl

trace-log_mode_example :
    trace {E = String} (log_mode quiet (pos 4)) (pos 200000000) none ≡ some sql_slow
unfolding trace quiet
trace-log_mode_example =
    trace-log_mode quiet (pos 4) (pos 200000000) none sql_slow (omega arith) refl

-- A warning hides a critical check behind it.
hidden : get_health_status ("passing" ∷ "warning" ∷ "critical" ∷ []) ≡ HealthStatus.warning
unfolding get_health_status
hidden = refl

abbrev uses : List Use
uses = watch_name "a" ∷ watch_name "a" ∷ watch_name "b" ∷ close_all ∷ watch_name "a" ∷ []

use_all-close_example : is_cancelled 2 (close (use_all uses new_discovery)).cancelled ≡ true
unfolding use_all new_discovery
use_all-close_example = use_all-close uses 2 (omega arith)

abbrev entry : ServiceEntry
entry = record {
  id = "1";
  service = "shop";
  address = "h";
  port = pos 1;
  tags = [];
  meta = ("grpc_addr", "h:2") ∷ [];
  checks = "critical" ∷ [];
}

-- An error and an index that stands are passed over.
calls :
    watch_loop 0 (none ∷ some ([], 5) ∷ some (entry ∷ [], 5) ∷ some (entry ∷ [], 6) ∷ [])
    ≡ [] ∷ services_of (entry ∷ []) ∷ []
unfolding watch_loop services_of
calls = refl

grpc_check :
    check_of
      (λ n. "1")
      (record {
        check_interval = "10s";
        check_timeout = "1s";
        deregister_critical_service_after = "";
      })
      (service_of entry)
    ≡ some (record {
      interval = "10s";
      timeout = "1s";
      deregister_critical_service_after = "";
      target = CheckTarget.grpc "h:2";
    })
unfolding check_of service_of lookup
grpc_check = refl
