-- ===== src/Config/Validator.antt =====
-- `ConfigValidator` of pkg/config/validator.go: the check of every section. A method appends its errors
-- to `v.errors`; here it gives the errors that it appends, and `validate_config` appends them in order.
use text.Mathlib.Text.{starts_with}
use goupter.Prelude.{
  append, String, Bool, true, false, not, ◌&&◌, ◌||◌, Option, none, some, List, [], ◌∷◌, ◌++◌, ◌==◌,
  string_key, is_none, ◌⊎◌, inl, inr, if◌then◌else◌,
}
use goupter.Prelude.Dict.{lookup, insert}
use goupter.Prelude.Float.{Float64}
use goupter.Prelude.Int.{ℤ, pos, negsuc, ltb_ℤ}
use goupter.Config.Types.{
  Config, AppConfig, ServerConfig, DatabaseConfig, RedisConfig, ConsulConfig, NatsConfig, LogConfig,
  TraceConfig,
}
use goupter.Config.Values.{
  AnyValue, Std, ValidationError, contains_string, join, reported, has_errors, errors_text,
}

-- A `ValidationRule`.
abbrev pub ValidationRule : Type 0 → Type 0
ValidationRule F = AnyValue F → String → Option (ValidationError F)

pub record ConfigValidator (F : Type 0) : Type 0 where
  pub rules : List (String × List (ValidationRule F))
  pub errors : List (ValidationError F)

unfoldable pub new_config_validator : {F : Type 0} → ConfigValidator F
new_config_validator = record { rules = []; errors = [] }

-- `v.rules[field]`, nil on a missing key.
unfoldable pub rules_of : {F : Type 0} → Option (List (ValidationRule F)) → List (ValidationRule F)
rules_of none = []
rules_of (some rules) = rules

unfoldable pub add_rule :
    {F : Type 0} → ConfigValidator F → String → List (ValidationRule F) → ConfigValidator F
unfolding rules_of
add_rule v name rules = record v {
  rules = insert name (rules_of (lookup name v.rules) ++ rules) v.rules;
}

-- An error with the offending value, and one without.
abbrev pub bad : {F : Type 0} → String → String → AnyValue F → ValidationError F
bad name message value = record { field_name = name; message = message; value = value }

abbrev pub bare : {F : Type 0} → String → String → ValidationError F
bare name message = record { field_name = name; message = message; value = AnyValue.nil }

-- `len(slice) == 0`
abbrev pub is_empty : List String → Bool
is_empty [] = true
is_empty (a ∷ rest) = false

-- `n < low || n > high`
abbrev pub outside : ℤ → ℤ → ℤ → Bool
outside low high n = ltb_ℤ n low || ltb_ℤ high n

abbrev pub negative : ℤ → Bool
negative n = ltb_ℤ n (pos 0)

abbrev pub port_message : String
port_message = "端口必须在 0-65535 范围内"

abbrev pub valid_envs : List String
valid_envs = "development" ∷ "staging" ∷ "production" ∷ "test" ∷ []

abbrev pub valid_drivers : List String
valid_drivers = "mysql" ∷ "postgres" ∷ "sqlite" ∷ "sqlserver" ∷ []

abbrev pub valid_log_levels : List String
valid_log_levels = "silent" ∷ "error" ∷ "warn" ∷ "info" ∷ []

-- `validModes[1:]`
abbrev pub named_modes : List String
named_modes = "standalone" ∷ "cluster" ∷ "sentinel" ∷ []

-- `validLevels[:len(validLevels)-1]`
abbrev pub named_levels : List String
named_levels = "debug" ∷ "info" ∷ "warn" ∷ "error" ∷ "fatal" ∷ []

unfoldable pub app_checks : {F : Type 0} → AppConfig → List (Bool × ValidationError F)
unfolding contains_string join
app_checks cfg =
    (cfg.name == "", bare "app.name" "应用名称不能为空")
    ∷ (cfg.version == "", bare "app.version" "应用版本不能为空")
    ∷ (
      not (cfg.env == "") && not (contains_string valid_envs cfg.env),
      bad "app.env" (append "无效的环境值，必须是: " (join valid_envs ", ")) (AnyValue.text cfg.env),
    )
    ∷ []

unfoldable pub validate_app : {F : Type 0} → AppConfig → List (ValidationError F)
unfolding app_checks reported
validate_app cfg = reported (app_checks cfg)

unfoldable pub server_checks : {F : Type 0} → ServerConfig → List (Bool × ValidationError F)
server_checks cfg =
    (
      outside (pos 0) (pos 65535) cfg.http.port,
      bad "server.http.port" port_message (AnyValue.int cfg.http.port),
    )
    ∷ (
      negative cfg.http.read_timeout,
      bad "server.http.read_timeout" "读取超时不能为负数" (AnyValue.other_int cfg.http.read_timeout),
    )
    ∷ (
      negative cfg.http.write_timeout,
      bad "server.http.write_timeout" "写入超时不能为负数" (AnyValue.other_int cfg.http.write_timeout),
    )
    ∷ (
      outside (pos 0) (pos 65535) cfg.grpc.port,
      bad "server.grpc.port" port_message (AnyValue.int cfg.grpc.port),
    )
    ∷ []

unfoldable pub validate_server : {F : Type 0} → ServerConfig → List (ValidationError F)
unfolding server_checks reported
validate_server cfg = reported (server_checks cfg)

unfoldable pub database_checks : {F : Type 0} → DatabaseConfig → List (Bool × ValidationError F)
unfolding contains_string join
database_checks cfg =
    (
      not (cfg.driver == "") && not (contains_string valid_drivers cfg.driver),
      bad "database.driver" (append "无效的数据库驱动，必须是: " (join valid_drivers ", "))
          (AnyValue.text cfg.driver),
    )
    ∷ (
      outside (pos 0) (pos 65535) cfg.port,
      bad "database.port" port_message (AnyValue.int cfg.port),
    )
    ∷ (
      negative cfg.max_idle_conns,
      bad "database.max_idle_conns" "最大空闲连接数不能为负数" (AnyValue.int cfg.max_idle_conns),
    )
    ∷ (
      negative cfg.max_open_conns,
      bad "database.max_open_conns" "最大打开连接数不能为负数" (AnyValue.int cfg.max_open_conns),
    )
    ∷ (
      ltb_ℤ (pos 0) cfg.max_idle_conns
          && ltb_ℤ (pos 0) cfg.max_open_conns
          && ltb_ℤ cfg.max_open_conns cfg.max_idle_conns,
      bad "database.max_idle_conns" "最大空闲连接数不能大于最大打开连接数" (AnyValue.int cfg.max_idle_conns),
    )
    ∷ (
      negative cfg.conn_max_lifetime,
      bad "database.conn_max_lifetime" "连接最大生存时间不能为负数" (AnyValue.other_int cfg.conn_max_lifetime),
    )
    ∷ (
      not (cfg.log_level == "") && not (contains_string valid_log_levels cfg.log_level),
      bad "database.log_level" (append "无效的日志级别，必须是: " (join valid_log_levels ", "))
          (AnyValue.text cfg.log_level),
    )
    ∷ (
      negative cfg.slow_query_threshold,
      bad "database.slow_query_threshold" "慢查询阈值不能为负数"
          (AnyValue.other_int cfg.slow_query_threshold),
    )
    ∷ []

unfoldable pub validate_database : {F : Type 0} → DatabaseConfig → List (ValidationError F)
unfolding database_checks reported
validate_database cfg = reported (database_checks cfg)

unfoldable pub redis_checks : {F : Type 0} → RedisConfig → List (Bool × ValidationError F)
unfolding contains_string join
redis_checks cfg =
    (outside (pos 0) (pos 65535) cfg.port, bad "redis.port" port_message (AnyValue.int cfg.port))
    ∷ (outside (pos 0) (pos 15) cfg.db, bad "redis.db" "数据库索引必须在 0-15 范围内" (AnyValue.int cfg.db))
    ∷ (negative cfg.pool_size, bad "redis.pool_size" "连接池大小不能为负数" (AnyValue.int cfg.pool_size))
    ∷ (
      not (contains_string ("" ∷ named_modes) cfg.mode),
      bad "redis.mode" (append "无效的模式，必须是: " (join named_modes ", ")) (AnyValue.text cfg.mode),
    )
    ∷ (cfg.mode == "cluster" && is_empty cfg.addrs, bare "redis.addrs" "集群模式下必须配置节点地址")
    ∷ (
      cfg.mode == "sentinel" && cfg.master_name == "",
      bare "redis.master_name" "哨兵模式下必须配置 master 名称",
    )
    ∷ (
      cfg.mode == "sentinel" && is_empty cfg.sentinel_addrs,
      bare "redis.sentinel_addrs" "哨兵模式下必须配置哨兵地址",
    )
    ∷ (
      negative cfg.dial_timeout,
      bad "redis.dial_timeout" "连接超时不能为负数" (AnyValue.other_int cfg.dial_timeout),
    )
    ∷ []

unfoldable pub validate_redis : {F : Type 0} → RedisConfig → List (ValidationError F)
unfolding redis_checks reported
validate_redis cfg = reported (redis_checks cfg)

-- `s != ""` and `time.ParseDuration(s)` fails.
abbrev pub bad_duration : Std → String → Bool
bad_duration std s = not (s == "") && is_none (std.parse_duration s)

unfoldable pub consul_checks : {F : Type 0} → Std → ConsulConfig → List (Bool × ValidationError F)
consul_checks std cfg =
    (outside (pos 0) (pos 65535) cfg.port, bad "consul.port" port_message (AnyValue.int cfg.port))
    ∷ (
      bad_duration std cfg.service.check_interval,
      bad "consul.service.check_interval" "无效的时间间隔格式" (AnyValue.text cfg.service.check_interval),
    )
    ∷ (
      bad_duration std cfg.service.check_timeout,
      bad "consul.service.check_timeout" "无效的时间间隔格式" (AnyValue.text cfg.service.check_timeout),
    )
    ∷ []

unfoldable pub validate_consul : {F : Type 0} → Std → ConsulConfig → List (ValidationError F)
unfolding consul_checks reported
validate_consul std cfg = reported (consul_checks std cfg)

unfoldable pub nats_checks : {F : Type 0} → NatsConfig → List (Bool × ValidationError F)
nats_checks cfg =
    (
      not (cfg.url == "")
          && (not (starts_with cfg.url "nats://") && not (starts_with cfg.url "tls://")),
      bad "nats.url" "NATS URL 必须以 nats:// 或 tls:// 开头" (AnyValue.text cfg.url),
    )
    ∷ (
      ltb_ℤ cfg.max_reconnects (negsuc 0),
      bad "nats.max_reconnects" "最大重连次数不能小于 -1（-1 表示无限重连）" (AnyValue.int cfg.max_reconnects),
    )
    ∷ (
      negative cfg.reconnect_wait,
      bad "nats.reconnect_wait" "重连等待时间不能为负数" (AnyValue.other_int cfg.reconnect_wait),
    )
    ∷ (
      negative cfg.connect_timeout,
      bad "nats.connect_timeout" "连接超时不能为负数" (AnyValue.other_int cfg.connect_timeout),
    )
    ∷ []

unfoldable pub validate_nats : {F : Type 0} → NatsConfig → List (ValidationError F)
unfolding nats_checks reported
validate_nats cfg = reported (nats_checks cfg)

unfoldable pub log_checks : {F : Type 0} → LogConfig → List (Bool × ValidationError F)
unfolding contains_string join
log_checks cfg =
    (
      not (contains_string (named_levels ++ "" ∷ []) cfg.level),
      bad "log.level" (append "无效的日志级别，必须是: " (join named_levels ", ")) (AnyValue.text cfg.level),
    )
    ∷ (
      not (contains_string ("json" ∷ "console" ∷ "" ∷ []) cfg.format),
      bad "log.format" "无效的日志格式，必须是: json, console" (AnyValue.text cfg.format),
    )
    ∷ (
      not (contains_string ("stdout" ∷ "file" ∷ "both" ∷ "" ∷ []) cfg.output),
      bad "log.output" "无效的输出方式，必须是: stdout, file, both" (AnyValue.text cfg.output),
    )
    ∷ (negative cfg.max_size, bad "log.max_size" "最大文件大小不能为负数" (AnyValue.int cfg.max_size))
    ∷ (negative cfg.max_backups, bad "log.max_backups" "最大备份数不能为负数" (AnyValue.int cfg.max_backups))
    ∷ (negative cfg.max_age, bad "log.max_age" "最大保留天数不能为负数" (AnyValue.int cfg.max_age))
    ∷ []

unfoldable pub validate_log : {F : Type 0} → LogConfig → List (ValidationError F)
unfolding log_checks reported
validate_log cfg = reported (log_checks cfg)

-- The errors of `ValidateAndLoad`: that of `Load`, and one that wraps the validator's.
pub data LoadError (E F : Type 0) : Type 0 where
  load : E → LoadError E F
  invalid : List (ValidationError F) → LoadError E F

module _ (fl : Float64) where
  open fl use {F, of_int, lt}

  unfoldable pub trace_checks : TraceConfig F → List (Bool × ValidationError F)
  trace_checks cfg =
      (cfg.enabled && cfg.service_name == "", bare "trace.service_name" "启用链路追踪时必须配置服务名称")
      ∷ (cfg.enabled && cfg.endpoint == "", bare "trace.endpoint" "启用链路追踪时必须配置上报地址")
      ∷ (
        lt cfg.sample_rate (of_int (pos 0)) || lt (of_int (pos 1)) cfg.sample_rate,
        bad "trace.sample_rate" "采样率必须在 0-1 范围内" (AnyValue.float cfg.sample_rate),
      )
      ∷ []

  unfoldable pub validate_trace : TraceConfig F → List (ValidationError F)
  unfolding trace_checks reported
  validate_trace cfg = reported (trace_checks cfg)

  -- The validator after the call; its `errors` are the answer. None is the nil configuration.
  unfoldable pub validate_config :
      {V : Type 0} → ConfigValidator F → Std → Option (Config F V) → ConfigValidator F
  validate_config v std none = record v { errors = bare "config" "配置不能为空" ∷ [] }
  validate_config v std (some cfg) = record v {
    errors =
        validate_app cfg.app
        ++ (validate_server cfg.server
            ++ (validate_database cfg.database
                ++ (validate_redis cfg.redis
                    ++ (validate_consul std cfg.consul
                        ++ (validate_nats cfg.nats
                            ++ (validate_log cfg.log ++ validate_trace cfg.trace))))));
  }

  -- The errors of `ValidateConfig`.
  unfoldable pub validate : {V : Type 0} → Std → Option (Config F V) → List (ValidationError F)
  unfolding new_config_validator
  validate std cfg = (validate_config new_config_validator std cfg).errors

  -- The panic of `MustValidateConfig`, or its return.
  unfoldable pub must_validate_config : {V : Type 0} → Std → Option (Config F V) → Option String
  unfolding validate has_errors errors_text
  must_validate_config std cfg =
      let errs = validate std cfg in if has_errors errs then some (errors_text errs) else none

  -- `ValidateAndLoad` after `Load`, whose outcome is an error or a configuration.
  unfoldable pub validate_and_load :
      {E V : Type 0} → Std → E ⊎ Config F V → LoadError E F ⊎ Config F V
  unfolding validate has_errors
  validate_and_load std (inl err) = inl (LoadError.load err)
  validate_and_load std (inr cfg) =
      let errs = validate std (some cfg) in
      if has_errors errs then inl (LoadError.invalid errs) else inr cfg
