-- ===== src/Config/Types.antt =====
-- The structs of pkg/config/config.go. A duration is its nanoseconds; `F` is `float64`, and `V` the
-- dynamic values of the auth section.
use goupter.Prelude.{String, Bool, List}
use goupter.Prelude.Int.{ℤ}

pub record AppConfig : Type 0 where
  pub name : String
  pub version : String
  pub env : String

pub record HttpConfig : Type 0 where
  pub host : String
  pub port : ℤ
  pub advertise_host : String
  pub read_timeout : ℤ
  pub write_timeout : ℤ
  pub idle_timeout : ℤ

pub record GrpcConfig : Type 0 where
  pub host : String
  pub port : ℤ

pub record ServerConfig : Type 0 where
  pub http : HttpConfig
  pub grpc : GrpcConfig

pub record DatabaseConfig : Type 0 where
  pub driver : String
  pub host : String
  pub port : ℤ
  pub database : String
  pub username : String
  pub password : String
  pub charset : String
  pub max_idle_conns : ℤ
  pub max_open_conns : ℤ
  pub conn_max_lifetime : ℤ
  pub conn_max_idle_time : ℤ
  pub log_level : String
  pub slow_query_threshold : ℤ
  pub slow_query_log : Bool
  pub slow_query_with_stack : Bool

pub record RedisConfig : Type 0 where
  pub host : String
  pub port : ℤ
  pub password : String
  pub db : ℤ
  pub pool_size : ℤ
  pub min_idle_conns : ℤ
  pub dial_timeout : ℤ
  pub read_timeout : ℤ
  pub write_timeout : ℤ
  pub mode : String
  pub addrs : List String
  pub master_name : String
  pub sentinel_addrs : List String
  pub route_by_latency : Bool
  pub route_randomly : Bool

pub record ConsulServiceConfig : Type 0 where
  pub id : String
  pub name : String
  pub tags : List String
  pub check_interval : String
  pub check_timeout : String
  pub deregister_critical_service_after : String

pub record ConsulConfig : Type 0 where
  pub host : String
  pub port : ℤ
  pub token : String
  pub datacenter : String
  pub service : ConsulServiceConfig
  pub config_path : String

pub record NatsConfig : Type 0 where
  pub url : String
  pub cluster_id : String
  pub client_id : String
  pub max_reconnects : ℤ
  pub reconnect_wait : ℤ
  pub connect_timeout : ℤ

pub record AuthConfig (V : Type 0) : Type 0 where
  pub type : String
  pub config : List (String × V)

pub record LogConfig : Type 0 where
  pub level : String
  pub format : String
  pub output : String
  pub filename : String
  pub max_size : ℤ
  pub max_backups : ℤ
  pub max_age : ℤ
  pub compress : Bool

pub record TraceConfig (F : Type 0) : Type 0 where
  pub enabled : Bool
  pub service_name : String
  pub endpoint : String
  pub sample_rate : F

pub record Config (F V : Type 0) : Type 0 where
  pub app : AppConfig
  pub server : ServerConfig
  pub database : DatabaseConfig
  pub redis : RedisConfig
  pub consul : ConsulConfig
  pub nats : NatsConfig
  pub auth : AuthConfig V
  pub log : LogConfig
  pub trace : TraceConfig F
