-- ===== src/Config/Sections.antt =====
-- Each section of pkg/config/validator.go is accepted when it is valid.
use goupter.Prelude.{◌≡◌, ◌↔◌, List, [], ◌∷◌, ◌++◌, string_key}
use goupter.Prelude.Int.{negsuc}
use goupter.Config.Types.{
  AppConfig, ServerConfig, DatabaseConfig, RedisConfig, ConsulConfig, NatsConfig, LogConfig,
}
use goupter.Config.Values.{Std, ValidationError}
use goupter.Config.Validator.{
  validate_app, validate_server, validate_database, validate_redis, validate_consul, validate_nats,
  validate_log, app_checks, server_checks, database_checks, redis_checks, consul_checks,
  nats_checks, log_checks, valid_envs, valid_drivers, valid_log_levels, named_modes, named_levels,
}
use goupter.Config.IsValid.{
  IsValidApp, IsValidServer, IsValidDatabase, IsValidRedis, IsValidConsul, IsValidNats, IsValidLog,
}
use goupter.Config.Tests.{
  also, nothing, through, reported-Passes, is_text, port, db_index, natural, at_least, chosen,
  blank_or_chosen, duration, idle, when_mode, some_text, nats_url,
}

pub validate_app_iff :
    {F : Type 0} (cfg : AppConfig)
    → (◌≡◌ {A = List (ValidationError F)} (validate_app cfg) []) ↔ IsValidApp cfg
unfolding validate_app app_checks
validate_app_iff cfg = through (reported-Passes (app_checks cfg)) (
    also (is_text cfg.name "")
      (also (is_text cfg.version "") (also (blank_or_chosen valid_envs cfg.env) nothing)))

pub validate_server_iff :
    {F : Type 0} (cfg : ServerConfig)
    → (◌≡◌ {A = List (ValidationError F)} (validate_server cfg) []) ↔ IsValidServer cfg
unfolding validate_server server_checks
validate_server_iff cfg = through (reported-Passes (server_checks cfg)) (
    also (port cfg.http.port) (
      also (natural cfg.http.read_timeout)
        (also (natural cfg.http.write_timeout) (also (port cfg.grpc.port) nothing))))

pub validate_database_iff :
    {F : Type 0} (cfg : DatabaseConfig)
    → (◌≡◌ {A = List (ValidationError F)} (validate_database cfg) []) ↔ IsValidDatabase cfg
unfolding validate_database database_checks
validate_database_iff cfg = through (reported-Passes (database_checks cfg)) (
    also (blank_or_chosen valid_drivers cfg.driver) (
      also (port cfg.port) (
        also (natural cfg.max_idle_conns) (
          also (natural cfg.max_open_conns) (
            also (idle cfg.max_idle_conns cfg.max_open_conns) (
              also (natural cfg.conn_max_lifetime) (
                also (blank_or_chosen valid_log_levels cfg.log_level)
                  (also (natural cfg.slow_query_threshold) nothing))))))))

pub validate_redis_iff :
    {F : Type 0} (cfg : RedisConfig)
    → (◌≡◌ {A = List (ValidationError F)} (validate_redis cfg) []) ↔ IsValidRedis cfg
unfolding validate_redis redis_checks
validate_redis_iff cfg = through (reported-Passes (redis_checks cfg)) (
    also (port cfg.port) (
      also (db_index cfg.db) (
        also (natural cfg.pool_size) (
          also (chosen ("" ∷ named_modes) cfg.mode) (
            also (when_mode cfg.mode "cluster" _ _ (some_text cfg.addrs)) (
              also (when_mode cfg.mode "sentinel" _ _ (is_text cfg.master_name "")) (
                also (when_mode cfg.mode "sentinel" _ _ (some_text cfg.sentinel_addrs))
                  (also (natural cfg.dial_timeout) nothing))))))))

pub validate_consul_iff :
    {F : Type 0} (std : Std) (cfg : ConsulConfig)
    → (◌≡◌ {A = List (ValidationError F)} (validate_consul std cfg) []) ↔ IsValidConsul std cfg
unfolding validate_consul consul_checks
validate_consul_iff std cfg = through (reported-Passes (consul_checks std cfg)) (
    also (port cfg.port) (
      also (duration std cfg.service.check_interval)
        (also (duration std cfg.service.check_timeout) nothing)))

pub validate_nats_iff :
    {F : Type 0} (cfg : NatsConfig)
    → (◌≡◌ {A = List (ValidationError F)} (validate_nats cfg) []) ↔ IsValidNats cfg
unfolding validate_nats nats_checks
validate_nats_iff cfg = through (reported-Passes (nats_checks cfg)) (
    also (nats_url cfg.url) (
      also (at_least (negsuc 0) cfg.max_reconnects)
        (also (natural cfg.reconnect_wait) (also (natural cfg.connect_timeout) nothing))))

pub validate_log_iff :
    {F : Type 0} (cfg : LogConfig)
    → (◌≡◌ {A = List (ValidationError F)} (validate_log cfg) []) ↔ IsValidLog cfg
unfolding validate_log log_checks
validate_log_iff cfg = through (reported-Passes (log_checks cfg)) (
    also (chosen (named_levels ++ "" ∷ []) cfg.level) (
      also (chosen ("json" ∷ "console" ∷ "" ∷ []) cfg.format) (
        also (chosen ("stdout" ∷ "file" ∷ "both" ∷ "" ∷ []) cfg.output) (
          also (natural cfg.max_size)
            (also (natural cfg.max_backups) (also (natural cfg.max_age) nothing))))))
