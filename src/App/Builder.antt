-- ===== src/App/Builder.antt =====
-- The builder of pkg/app/options.go and the options and `New` of pkg/app/app.go. The constructors of the
-- components are outside: each answers a component or an error. `C` is the type of the components, `H` of
-- the hooks, `G` of the configurations and `M` of the metrics' settings.
use goupter.Prelude.{
  String, Bool, true, false, Option, none, some, List, [], ◌∷◌, ◌++◌, is_none, if◌then◌else◌,
}
use goupter.App.Health.{HealthConfig, HealthManager, default_health_config, new_health_manager}

pub record PprofConfig : Type 0 where
  pub enabled : Bool
  pub base_path : String

unfoldable pub default_pprof_config : PprofConfig
default_pprof_config = record { enabled = true; base_path = "/debug/pprof" }

-- `Option`: what each `With...` sets, and the hooks.
pub data AppOption (C H G M : Type 0) : Type 0 where
  with_name : String → AppOption C H G M
  with_config : G → AppOption C H G M
  with_logger : C → AppOption C H G M
  with_http_server : C → AppOption C H G M
  with_grpc_server : C → AppOption C H G M
  with_database : C → AppOption C H G M
  with_cache : C → AppOption C H G M
  with_discovery : C → AppOption C H G M
  with_message_queue : C → AppOption C H G M
  with_authenticator : C → AppOption C H G M
  with_health_manager : HealthManager → AppOption C H G M
  with_health_config : Option HealthConfig → AppOption C H G M
  with_metrics_config : M → AppOption C H G M
  with_pprof_config : PprofConfig → AppOption C H G M
  before_start : H → AppOption C H G M
  after_start : H → AppOption C H G M
  before_stop : H → AppOption C H G M
  after_stop : H → AppOption C H G M

-- `App`, less what the running application sets.
pub record Application (C H G M : Type 0) : Type 0 where
  pub name : String
  pub config : Option G
  pub logger : Option C
  pub http_server : Option C
  pub grpc_server : Option C
  pub db : Option C
  pub cache : Option C
  pub discovery : Option C
  pub mq : Option C
  pub auth : Option C
  pub health : HealthManager
  pub metrics_config : Option M
  pub pprof_config : Option PprofConfig
  pub before_start : List H
  pub after_start : List H
  pub before_stop : List H
  pub after_stop : List H
  pub running : Bool

module _ {C H G M : Type 0} where
  unfoldable pub apply_option : AppOption C H G M → Application C H G M → Application C H G M
  unfolding new_health_manager
  apply_option (with_name name) a = record a { name = name }
  apply_option (with_config cfg) a = record a { config = some cfg }
  apply_option (with_logger c) a = record a { logger = some c }
  apply_option (with_http_server c) a = record a { http_server = some c }
  apply_option (with_grpc_server c) a = record a { grpc_server = some c }
  apply_option (with_database c) a = record a { db = some c }
  apply_option (with_cache c) a = record a { cache = some c }
  apply_option (with_discovery c) a = record a { discovery = some c }
  apply_option (with_message_queue c) a = record a { mq = some c }
  apply_option (with_authenticator c) a = record a { auth = some c }
  apply_option (with_health_manager h) a = record a { health = h }
  apply_option (with_health_config cfg) a = record a { health = new_health_manager cfg }
  apply_option (with_metrics_config cfg) a = record a { metrics_config = some cfg }
  apply_option (with_pprof_config cfg) a = record a { pprof_config = some cfg }
  apply_option (AppOption.before_start h) a = record a { before_start = a.before_start ++ h ∷ [] }
  apply_option (AppOption.after_start h) a = record a { after_start = a.after_start ++ h ∷ [] }
  apply_option (AppOption.before_stop h) a = record a { before_stop = a.before_stop ++ h ∷ [] }
  apply_option (AppOption.after_stop h) a = record a { after_stop = a.after_stop ++ h ∷ [] }

  -- The loop of `New`.
  unfoldable pub apply_options :
      List (AppOption C H G M) → Application C H G M → Application C H G M
  apply_options [] a = a
  apply_options (opt ∷ opts) a = apply_options opts (apply_option opt a)

  unfoldable pub new_app : List (AppOption C H G M) → Application C H G M
  unfolding apply_options new_health_manager
  new_app opts = apply_options opts (record {
    name = "flit-app";
    config = none;
    logger = none;
    http_server = none;
    grpc_server = none;
    db = none;
    cache = none;
    discovery = none;
    mq = none;
    auth = none;
    health = new_health_manager none;
    metrics_config = none;
    pprof_config = none;
    before_start = [];
    after_start = [];
    before_stop = [];
    after_stop = [];
    running = false;
  })

-- A component, or the error of its constructor.
pub data Made (A E : Type 0) : Type 0 where
  made : A → Made A E
  failed : E → Made A E

pub data BuildError (E : Type 0) : Type 0 where
  config_not_loaded : BuildError E
  -- `fmt.Errorf("...: %w", err)`
  init_failed : String → E → BuildError E

-- `config.Option`: each sets one field of the options of `config.Load`.
pub data LoadOption (G : Type 0) : Type 0 where
  with_config_file : String → LoadOption G
  with_config_type : String → LoadOption G
  with_config_paths : List String → LoadOption G
  with_env_prefix : String → LoadOption G
  with_default : G → LoadOption G

-- The constructors. `load` is `config.Load`; the others read the configuration, and most the default
-- logger, none before one is set. The HTTP server comes with its three middlewares.
pub record Outside (C G E : Type 0) : Type 0 where
  pub load : List (LoadOption G) → Made G E
  pub new_zap_logger : G → Made C E
  pub new_mysql : G → Option C → Made C E
  pub new_redis_cache : G → Made C E
  pub new_consul_discovery : G → Option C → Made C E
  pub new_nats_client : G → Option C → Made C E
  pub new_authenticator : G → Made C E
  pub new_http_server : G → Option C → C
  pub new_grpc_server : G → Option C → C

-- `Builder`, with the two globals that it reads and sets: `config.Get()` and `log.Default()`.
pub record Builder (C H G M E : Type 0) : Type 0 where
  pub opts : List (AppOption C H G M)
  pub err : Option (BuildError E)
  pub config : Option G
  pub default_logger : Option C

module _ {C H G M E : Type 0} where
  unfoldable pub new_builder : Option G → Option C → Builder C H G M E
  new_builder config logger = record {
    opts = [];
    err = none;
    config = config;
    default_logger = logger;
  }

  -- `Name`, the four hooks, and the last line of every other method.
  unfoldable pub add_option : AppOption C H G M → Builder C H G M E → Builder C H G M E
  add_option opt b = record b { opts = b.opts ++ opt ∷ [] }

  unfoldable pub load_config :
      Outside C G E → List (LoadOption G) → Builder C H G M E → Builder C H G M E
  unfolding add_option
  load_config out opts b =
      if is_none b.err
      then (elim (out.load opts) [
        | failed e ↦ record b { err = some (init_failed "load config failed" e) }
        | made cfg ↦ add_option (with_config cfg) (record b { config = some cfg })
      ])
      else b

  -- The shape of the `Init` methods: after an error nothing, then the configuration, then the
  -- constructor.
  unfoldable pub init_with :
      String → (G → Made C E) → (C → AppOption C H G M) → Builder C H G M E → Builder C H G M E
  unfolding add_option
  init_with message make opt b =
      if is_none b.err
      then (elim b.config [
        | none ↦ record b { err = some config_not_loaded }
        | some cfg ↦ elim (make cfg) [
          | failed e ↦ record b { err = some (init_failed message e) }
          | made c ↦ add_option (opt c) b
        ]
      ])
      else b

  unfoldable pub init_logger : Outside C G E → Builder C H G M E → Builder C H G M E
  unfolding add_option
  init_logger out b =
      if is_none b.err
      then (elim b.config [
        | none ↦ record b { err = some config_not_loaded }
        | some cfg ↦ elim (out.new_zap_logger cfg) [
          | failed e ↦ record b { err = some (init_failed "init logger failed" e) }
          | made logger ↦
              add_option (with_logger logger) (record b { default_logger = some logger })
        ]
      ])
      else b

  unfoldable pub init_database : Outside C G E → Builder C H G M E → Builder C H G M E
  unfolding init_with
  init_database out b =
      init_with "init database failed" (λ cfg. out.new_mysql cfg b.default_logger) with_database b

  unfoldable pub init_cache : Outside C G E → Builder C H G M E → Builder C H G M E
  unfolding init_with
  init_cache out b = init_with "init cache failed" out.new_redis_cache with_cache b

  unfoldable pub init_discovery : Outside C G E → Builder C H G M E → Builder C H G M E
  unfolding init_with
  init_discovery out b =
      init_with "init discovery failed" (λ cfg. out.new_consul_discovery cfg b.default_logger)
        with_discovery b

  unfoldable pub init_message_queue : Outside C G E → Builder C H G M E → Builder C H G M E
  unfolding init_with
  init_message_queue out b =
      init_with "init message queue failed" (λ cfg. out.new_nats_client cfg b.default_logger)
        with_message_queue b

  unfoldable pub init_auth : Outside C G E → Builder C H G M E → Builder C H G M E
  unfolding init_with
  init_auth out b = init_with "init auth failed" out.new_authenticator with_authenticator b

  unfoldable pub init_http_server : Outside C G E → Builder C H G M E → Builder C H G M E
  unfolding init_with
  init_http_server out b =
      init_with "" (λ cfg. made (out.new_http_server cfg b.default_logger)) with_http_server b

  unfoldable pub init_grpc_server : Outside C G E → Builder C H G M E → Builder C H G M E
  unfolding init_with
  init_grpc_server out b =
      init_with "" (λ cfg. made (out.new_grpc_server cfg b.default_logger)) with_grpc_server b

  -- These three look at no error.
  unfoldable pub init_health : Option HealthConfig → Builder C H G M E → Builder C H G M E
  unfolding add_option default_health_config
  init_health none b = add_option (with_health_config (some default_health_config)) b
  init_health (some cfg) b = add_option (with_health_config (some cfg)) b

  unfoldable pub init_metrics : M → Option M → Builder C H G M E → Builder C H G M E
  unfolding add_option
  init_metrics default_metrics_config none b =
      add_option (with_metrics_config default_metrics_config) b
  init_metrics default_metrics_config (some cfg) b = add_option (with_metrics_config cfg) b

  unfoldable pub init_pprof : Option PprofConfig → Builder C H G M E → Builder C H G M E
  unfolding add_option default_pprof_config
  init_pprof none b = add_option (with_pprof_config default_pprof_config) b
  init_pprof (some cfg) b = add_option (with_pprof_config cfg) b

  unfoldable pub build : Builder C H G M E → Made (Application C H G M) (BuildError E)
  unfolding new_app
  build b = elim b.err [ some e ↦ failed e | none ↦ made (new_app b.opts) ]

  -- `MustBuild`: none is the panic.
  unfoldable pub must_build : Builder C H G M E → Option (Application C H G M)
  unfolding build
  must_build b = elim (build b) [ failed e ↦ none | made a ↦ some a ]
