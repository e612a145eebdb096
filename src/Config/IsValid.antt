-- ===== src/Config/IsValid.antt =====
-- What a configuration must be for pkg/config/validator.go to accept it, section by section.
use text.Mathlib.Text.{starts_with}
use goupter.Prelude.{String, ◌≡◌, ◌≢◌, ◌⊎◌, true, false, some, List, [], ◌∷◌, ◌++◌, string_key}
use goupter.Prelude.Float.{Float64}
use goupter.Prelude.Int.{ℤ, pos, negsuc, ◌≤ℤ◌, ◌<ℤ◌}
use goupter.Config.Types.{
  Config, AppConfig, ServerConfig, DatabaseConfig, RedisConfig, ConsulConfig, NatsConfig, LogConfig,
  TraceConfig,
}
use goupter.Config.Values.{Std}
use goupter.Config.Validator.{
  valid_envs, valid_drivers, valid_log_levels, named_modes, named_levels,
}

-- `s` is one of the texts.
pub data Among (s : String) : List String → Type 0 where
  here : (item : String) (slice : List String) → item ≡ s → Among s (item ∷ slice)
  there : (item : String) (slice : List String) → Among s slice → Among s (item ∷ slice)

-- All of the statements hold.
abbrev pub Every : List (Type 0) → Type 0
Every [] = Unit {0}
Every (P ∷ Ps) = P × Every Ps

abbrev pub IsPort : ℤ → Type 0
IsPort n = (pos 0 ≤ℤ n) × (n ≤ℤ pos 65535)

abbrev pub IsDuration : Std → String → Type 0
IsDuration std s = (s ≡ "") ⊎ ((d : ℤ) × (std.parse_duration s ≡ some d))

abbrev pub IsValidApp : AppConfig → Type 0
IsValidApp cfg =
    Every ((cfg.name ≢ "") ∷ (cfg.version ≢ "") ∷ ((cfg.env ≡ "") ⊎ Among cfg.env valid_envs) ∷ [])

abbrev pub IsValidServer : ServerConfig → Type 0
IsValidServer cfg = Every (
    IsPort cfg.http.port
    ∷ (pos 0 ≤ℤ cfg.http.read_timeout)
    ∷ (pos 0 ≤ℤ cfg.http.write_timeout)
    ∷ IsPort cfg.grpc.port
    ∷ [])

abbrev pub IsValidDatabase : DatabaseConfig → Type 0
IsValidDatabase cfg = Every (
    ((cfg.driver ≡ "") ⊎ Among cfg.driver valid_drivers)
    ∷ IsPort cfg.port
    ∷ (pos 0 ≤ℤ cfg.max_idle_conns)
    ∷ (pos 0 ≤ℤ cfg.max_open_conns)
    ∷ (pos 0 <ℤ cfg.max_idle_conns
        → pos 0 <ℤ cfg.max_open_conns
        → cfg.max_idle_conns ≤ℤ cfg.max_open_conns)
    ∷ (pos 0 ≤ℤ cfg.conn_max_lifetime)
    ∷ ((cfg.log_level ≡ "") ⊎ Among cfg.log_level valid_log_levels)
    ∷ (pos 0 ≤ℤ cfg.slow_query_threshold)
    ∷ [])

abbrev pub IsValidRedis : RedisConfig → Type 0
IsValidRedis cfg = Every (
    IsPort cfg.port
    ∷ ((pos 0 ≤ℤ cfg.db) × (cfg.db ≤ℤ pos 15))
    ∷ (pos 0 ≤ℤ cfg.pool_size)
    ∷ Among cfg.mode ("" ∷ named_modes)
    ∷ (cfg.mode ≡ "cluster" → cfg.addrs ≢ [])
    ∷ (cfg.mode ≡ "sentinel" → cfg.master_name ≢ "")
    ∷ (cfg.mode ≡ "sentinel" → cfg.sentinel_addrs ≢ [])
    ∷ (pos 0 ≤ℤ cfg.dial_timeout)
    ∷ [])

abbrev pub IsValidConsul : Std → ConsulConfig → Type 0
IsValidConsul std cfg = Every (
    IsPort cfg.port
    ∷ IsDuration std cfg.service.check_interval
    ∷ IsDuration std cfg.service.check_timeout
    ∷ [])

abbrev pub IsValidNats : NatsConfig → Type 0
IsValidNats cfg = Every (
    ((cfg.url ≡ "")
      ⊎ ((starts_with cfg.url "nats://" ≡ true) ⊎ (starts_with cfg.url "tls://" ≡ true)))
    ∷ (negsuc 0 ≤ℤ cfg.max_reconnects)
    ∷ (pos 0 ≤ℤ cfg.reconnect_wait)
    ∷ (pos 0 ≤ℤ cfg.connect_timeout)
    ∷ [])

abbrev pub IsValidLog : LogConfig → Type 0
IsValidLog cfg = Every (
    Among cfg.level (named_levels ++ "" ∷ [])
    ∷ Among cfg.format ("json" ∷ "console" ∷ "" ∷ [])
    ∷ Among cfg.output ("stdout" ∷ "file" ∷ "both" ∷ "" ∷ [])
    ∷ (pos 0 ≤ℤ cfg.max_size)
    ∷ (pos 0 ≤ℤ cfg.max_backups)
    ∷ (pos 0 ≤ℤ cfg.max_age)
    ∷ [])

module _ (fl : Float64) where
  open fl use {F, of_int, lt}

  abbrev pub IsValidTrace : TraceConfig F → Type 0
  IsValidTrace cfg = Every (
      (cfg.enabled ≡ true → cfg.service_name ≢ "")
      ∷ (cfg.enabled ≡ true → cfg.endpoint ≢ "")
      ∷ ((lt cfg.sample_rate (of_int (pos 0)) ≡ false)
          × (lt (of_int (pos 1)) cfg.sample_rate ≡ false))
      ∷ [])

  abbrev pub IsValidConfig : {V : Type 0} → Std → Config F V → Type 0
  IsValidConfig std cfg = Every (
      IsValidApp cfg.app
      ∷ IsValidServer cfg.server
      ∷ IsValidDatabase cfg.database
      ∷ IsValidRedis cfg.redis
      ∷ IsValidConsul std cfg.consul
      ∷ IsValidNats cfg.nats
      ∷ IsValidLog cfg.log
      ∷ IsValidTrace cfg.trace
      ∷ [])
