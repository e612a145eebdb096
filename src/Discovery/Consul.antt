-- ===== src/Discovery/Consul.antt =====
-- The `ConsulDiscovery` of pkg/discovery/consul.go. The answers of the Consul client are arguments; a
-- watcher is a number, and the goroutine of a watcher runs until its context is cancelled.
use goupter.Prelude.{
  ℕ, suc, append, String, Bool, false, not, Option, none, some, List, [], ◌∷◌, ◌++◌, ◌==◌,
  string_key, nat_key, ltb, ◌||◌, if◌then◌else◌,
}
use goupter.Prelude.Int.{ℤ, pos}
use goupter.Prelude.Dict.{lookup, insert}

pub data HealthStatus : Type 0 where
  passing : HealthStatus
  warning : HealthStatus
  critical : HealthStatus

pub record ServiceInfo : Type 0 where
  pub id : String
  pub name : String
  pub address : String
  pub port : ℤ
  pub tags : List String
  pub metadata : List (String × String)
  pub weight : ℤ
  pub health : HealthStatus

-- `getHealthStatus`, on the statuses of the checks.
unfoldable pub get_health_status : List String → HealthStatus
get_health_status [] = passing
get_health_status (status ∷ checks) =
    let rest = get_health_status checks in
    if status == "critical" then critical else if status == "warning" then warning else rest

-- An entry of Consul's answer: the service and the statuses of its checks.
pub record ServiceEntry : Type 0 where
  pub id : String
  pub service : String
  pub address : String
  pub port : ℤ
  pub tags : List String
  pub meta : List (String × String)
  pub checks : List String

unfoldable pub service_of : ServiceEntry → ServiceInfo
unfolding get_health_status
service_of s = record {
  id = s.id;
  name = s.service;
  address = s.address;
  port = s.port;
  tags = s.tags;
  metadata = s.meta;
  weight = pos 0;
  health = get_health_status s.checks;
}

unfoldable pub services_of : List ServiceEntry → List ServiceInfo
unfolding service_of
services_of [] = []
services_of (s ∷ services) = service_of s ∷ services_of services

-- The answer of `Health().Service`: the entries and the index, or none for an error.
abbrev pub Answer : Type 0
Answer = Option (List ServiceEntry × ℕ)

unfoldable pub get_service : Answer → Option (List ServiceInfo)
unfolding services_of
get_service none = none
get_service (some (services, index)) = some (services_of services)

-- `AgentServiceRegistration` with the check, and what of the configuration it reads.
pub record CheckConfig : Type 0 where
  pub check_interval : String
  pub check_timeout : String
  pub deregister_critical_service_after : String

pub data CheckTarget : Type 0 where
  grpc : String → CheckTarget
  http : String → CheckTarget

pub record ServiceCheck : Type 0 where
  pub interval : String
  pub timeout : String
  pub deregister_critical_service_after : String
  pub target : CheckTarget

-- `decimal` is `%d`.
unfoldable pub check_of : (ℤ → String) → CheckConfig → ServiceInfo → Option ServiceCheck
check_of decimal cfg service =
    let target : CheckTarget = elim (lookup "grpc_addr" service.metadata) [
      | some grpc_addr ↦ grpc grpc_addr
      | none ↦ http (
          append "http://"
            (append service.address (append ":" (append (decimal service.port) "/health"))))
    ] in
    if not (cfg.check_interval == "")
    then some (record {
      interval = cfg.check_interval;
      timeout = cfg.check_timeout;
      deregister_critical_service_after = cfg.deregister_critical_service_after;
      target = target;
    })
    else none

-- One turn of the loop of a watcher: the last index, and what the callback is called with.
unfoldable pub watch_turn : ℕ → Answer → ℕ × Option (List ServiceInfo)
unfolding services_of
watch_turn last_index none = (last_index, none)
watch_turn last_index (some (services, index)) =
    if ltb last_index index then (index, some (services_of services)) else (last_index, none)

-- The turns of a watcher until it is cancelled: the calls of its callback.
unfoldable pub watch_loop : ℕ → List Answer → List (List ServiceInfo)
unfolding watch_turn
watch_loop last_index [] = []
watch_loop last_index (answer ∷ answers) =
    let (index, called) = watch_turn last_index answer in
    let rest = watch_loop index answers in
    elim called [ none ↦ rest | some services ↦ services ∷ rest ]

-- The map of the watchers, those that were started, and those that are cancelled.
pub record ConsulDiscovery : Type 0 where
  pub watchers : List (String × ℕ)
  pub started : ℕ
  pub cancelled : List ℕ

-- `Watch`: the watcher of the name is replaced, and the next one started.
unfoldable pub watch : ConsulDiscovery → String → ConsulDiscovery
watch d name = record {
  watchers = insert name d.started d.watchers;
  started = suc d.started;
  cancelled = elim (lookup name d.watchers) [
    | none ↦ d.cancelled
    | some watcher ↦ watcher ∷ d.cancelled
  ];
}

unfoldable pub watcher_ids : List (String × ℕ) → List ℕ
watcher_ids [] = []
watcher_ids ((name, watcher) ∷ rest) = watcher ∷ watcher_ids rest

-- `Close`
unfoldable pub close : ConsulDiscovery → ConsulDiscovery
unfolding watcher_ids
close d = record d { watchers = []; cancelled = watcher_ids d.watchers ++ d.cancelled }

unfoldable pub is_cancelled : ℕ → List ℕ → Bool
is_cancelled watcher [] = false
is_cancelled watcher (w ∷ ws) = (w == watcher) || is_cancelled watcher ws

-- The calls of `Watch` and `Close` on a new discovery.
pub data Use : Type 0 where
  watch_name : String → Use
  close_all : Use

unfoldable pub use_all : List Use → ConsulDiscovery → ConsulDiscovery
unfolding watch close
use_all [] d = d
use_all (watch_name name ∷ uses) d = use_all uses (watch d name)
use_all (close_all ∷ uses) d = use_all uses (close d)

unfoldable pub new_discovery : ConsulDiscovery
new_discovery = record { watchers = []; started = 0; cancelled = [] }
