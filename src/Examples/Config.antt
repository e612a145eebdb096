-- ===== src/Examples/Config.antt =====
-- Examples about pkg/config/validator.go.
use goupter.Prelude.{
  String, ◌≡◌, refl, ◌↔◌, true, false, none, some, [], ◌∷◌, is_none, ◌⊎◌, inr, if◌then◌else◌,
}
use goupter.Prelude.Int.{ℤ, pos}
use goupter.Config.Types.{Config}
use goupter.Config.Values.{AnyValue, Std, ValidationError, errors_text}
use goupter.Config.Validator.{
  new_config_validator, add_rule, validate_config, validate_app, validate_server, validate_database,
  validate_redis, validate_consul, validate_nats, validate_log, validate_trace, validate_and_load,
  LoadError, must_validate_config,
}
use goupter.Config.IsValid.{IsValidConfig}
use goupter.Config.Accepts.{
  validate_config-IsValid, validate_config-add_rule, validate_and_load-IsValid,
  must_validate_config-IsValid,
}
use goupter.Config.Rules.{range_rule, min_rule, max_rule, port_rule, required}
use goupter.Config.RuleLaws.{range_rule_min_max, port_rule_range, is_integer, is_port_type}
use goupter.Examples.RateLimit.{whole}

-- No text is a duration or an address, and none matches a pattern.
abbrev std : Std
std = record {
  parse_duration = λ s. none;
  match_string = λ pattern s. false;
  parse_ip = λ s. false;
  format_int = λ n. "n";
}

abbrev cfg : Config ℤ String
cfg = record {
  app = record { name = "shop"; version = "1.0.0"; env = "production" };
  server = record {
    http = record {
      host = "0.0.0.0";
      port = pos 8080;
      advertise_host = "";
      read_timeout = pos 30;
      write_timeout = pos 30;
      idle_timeout = pos 120;
    };
    grpc = record { host = "0.0.0.0"; port = pos 9090 };
  };
  database = record {
    driver = "mysql";
    host = "localhost";
    port = pos 3306;
    database = "shop";
    username = "";
    password = "";
    charset = "utf8mb4";
    max_idle_conns = pos 200;
    max_open_conns = pos 100;
    conn_max_lifetime = pos 3600;
    conn_max_idle_time = pos 600;
    log_level = "warn";
    slow_query_threshold = pos 200;
    slow_query_log = true;
    slow_query_with_stack = false;
  };
  redis = record {
    host = "localhost";
    port = pos 6379;
    password = "";
    db = pos 0;
    pool_size = pos 10;
    min_idle_conns = pos 5;
    dial_timeout = pos 5;
    read_timeout = pos 3;
    write_timeout = pos 3;
    mode = "";
    addrs = [];
    master_name = "";
    sentinel_addrs = [];
    route_by_latency = false;
    route_randomly = false;
  };
  consul = record {
    host = "localhost";
    port = pos 8500;
    token = "";
    datacenter = "dc1";
    service = record {
      id = "";
      name = "";
      tags = [];
      check_interval = "";
      check_timeout = "";
      deregister_critical_service_after = "";
    };
    config_path = "";
  };
  nats = record {
    url = "nats://localhost:4222";
    cluster_id = "";
    client_id = "";
    max_reconnects = pos 10;
    reconnect_wait = pos 2;
    connect_timeout = pos 5;
  };
  auth = record { type = "jwt"; config = [] };
  log = record {
    level = "info";
    format = "json";
    output = "stdout";
    filename = "";
    max_size = pos 100;
    max_backups = pos 3;
    max_age = pos 7;
    compress = true;
  };
  trace = record { enabled = false; service_name = ""; endpoint = ""; sample_rate = pos 1 };
}

program : Unit {0}
unfolding validate_config errors_text new_config_validator validate_app validate_server
    validate_database validate_redis validate_consul validate_nats validate_log validate_trace
program = tt

abbrev one_error : ValidationError ℤ
one_error = record {
  field_name = "database.max_idle_conns";
  message = "最大空闲连接数不能大于最大打开连接数";
  value = AnyValue.int (pos 200);
}

reports : (validate_config whole new_config_validator std (some cfg)).errors ≡ one_error ∷ []
unfolding program
reports = refl

reports_text :
    errors_text (validate_config whole new_config_validator std (some cfg)).errors
    ≡ "配置校验失败 [database.max_idle_conns]: 最大空闲连接数不能大于最大打开连接数"
unfolding program
reports_text = refl

validate_config-IsValid_example :
    ((validate_config whole new_config_validator std (some cfg)).errors ≡ [])
    ↔ IsValidConfig whole std cfg
validate_config-IsValid_example = validate_config-IsValid whole new_config_validator std cfg

validate_config-add_rule_example :
    (validate_config whole
      (add_rule new_config_validator "app.name" (required whole std ∷ []))
      std
      (some cfg)).errors
    ≡ (validate_config whole new_config_validator std (some cfg)).errors
validate_config-add_rule_example =
    validate_config-add_rule whole new_config_validator "app.name" (required whole std ∷ []) std
      (some cfg)

range_rule_min_max_example :
    is_none (range_rule whole std (pos 1) (pos 9) (AnyValue.int (pos 12)) "n") ≡ (
      if is_none (min_rule whole std (pos 1) (AnyValue.int (pos 12)) "n")
      then is_none (max_rule whole std (pos 9) (AnyValue.int (pos 12)) "n")
      else false)
unfolding is_integer
range_rule_min_max_example =
    range_rule_min_max whole std (pos 1) (pos 9) (AnyValue.int (pos 12)) "n"

port_rule_range_example :
    is_none (port_rule whole std (AnyValue.other_int (pos 70000)) "port") ≡ true
unfolding is_port_type
port_rule_range_example = port_rule_range whole std (AnyValue.other_int (pos 70000)) "port"

validate_and_load-IsValid_example :
    (◌≡◌ {A = LoadError String ℤ ⊎ Config ℤ String}
      (validate_and_load whole std (inr cfg))
      (inr cfg))
    ↔ ((◌≡◌ {A = String ⊎ Config ℤ String} (inr cfg) (inr cfg)) × IsValidConfig whole std cfg)
validate_and_load-IsValid_example = validate_and_load-IsValid whole std (inr cfg) cfg

must_validate_config-IsValid_example :
    (must_validate_config whole std (some cfg) ≡ none) ↔ IsValidConfig whole std cfg
must_validate_config-IsValid_example = must_validate_config-IsValid whole std cfg
