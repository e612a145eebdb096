-- ===== src/App/BuilderLaws.antt =====
-- What a chain of calls on the builder builds.
use mathlib.Core.List.{append_assoc, append-nil}
use goupter.Prelude.{
  ◌≡◌, refl, sym, ap, ◌∙◌, String, Option, none, some, List, [], ◌∷◌, ◌++◌, arith,
}
use goupter.App.Health.{HealthConfig, default_health_config}
use goupter.App.Builder.{
  AppOption, with_name, with_config, with_logger, with_http_server, with_grpc_server, with_database,
  with_cache, with_discovery, with_message_queue, with_authenticator, with_health_config,
  with_metrics_config, with_pprof_config, Application, new_app, LoadOption, Made, made, failed,
  BuildError, config_not_loaded, init_failed, Outside, Builder, new_builder, add_option,
  load_config, init_with, init_logger, init_database, init_cache, init_discovery,
  init_message_queue, init_auth, init_http_server, init_grpc_server, init_health, init_metrics,
  init_pprof, PprofConfig, default_pprof_config, build,
}

-- The calls of a chain.
pub data BuilderCall (C H G M : Type 0) : Type 0 where
  name : String → BuilderCall C H G M
  config : List (LoadOption G) → BuilderCall C H G M
  logger database cache discovery message_queue auth http_server grpc_server : BuilderCall C H G M
  health : Option HealthConfig → BuilderCall C H G M
  metrics : Option M → BuilderCall C H G M
  pprof : Option PprofConfig → BuilderCall C H G M
  before_start after_start before_stop after_stop : H → BuilderCall C H G M

module _ {C H G M E : Type 0} (out : Outside C G E) (default_metrics_config : M) where
  unfoldable pub call : BuilderCall C H G M → Builder C H G M E → Builder C H G M E
  call (name n) b = add_option (with_name n) b
  call (config opts) b = load_config out opts b
  call logger b = init_logger out b
  call database b = init_database out b
  call cache b = init_cache out b
  call discovery b = init_discovery out b
  call message_queue b = init_message_queue out b
  call auth b = init_auth out b
  call http_server b = init_http_server out b
  call grpc_server b = init_grpc_server out b
  call (health cfg) b = init_health cfg b
  call (metrics cfg) b = init_metrics default_metrics_config cfg b
  call (pprof cfg) b = init_pprof cfg b
  call (before_start h) b = add_option (AppOption.before_start h) b
  call (after_start h) b = add_option (AppOption.after_start h) b
  call (before_stop h) b = add_option (AppOption.before_stop h) b
  call (after_stop h) b = add_option (AppOption.after_stop h) b

  unfoldable pub chain : List (BuilderCall C H G M) → Builder C H G M E → Builder C H G M E
  unfolding call
  chain [] b = b
  chain (c ∷ calls) b = chain calls (call c b)

-- What a component needs: the loaded configuration, and its constructor.
unfoldable pub needs :
    {C H G M E : Type 0}
    → Option G
    → (G → Made C E)
    → String
    → (C → AppOption C H G M)
    → Made (AppOption C H G M) (BuildError E)
needs none make message opt = failed config_not_loaded
needs (some cfg) make message opt = elim (make cfg) [
  | failed e ↦ failed (init_failed message e)
  | made c ↦ made (opt c)
]

unfoldable pub given : {A : Type 0} → A → Option A → A
given default none = default
given default (some a) = a

module _ {C H G M E : Type 0} (out : Outside C G E) (default_metrics_config : M) where
  -- The option that a call stands for under the loaded configuration and the default logger, or the
  -- error with which it fails.
  unfoldable pub outcome :
      Option G → Option C → BuilderCall C H G M → Made (AppOption C H G M) (BuildError E)
  unfolding needs given
  outcome cfg dl (name n) = made (with_name n)
  outcome cfg dl (config opts) = elim (out.load opts) [
    | failed e ↦ failed (init_failed "load config failed" e)
    | made loaded ↦ made (with_config loaded)
  ]
  outcome cfg dl logger = needs cfg out.new_zap_logger "init logger failed" with_logger
  outcome cfg dl database = needs cfg (λ g. out.new_mysql g dl) "init database failed" with_database
  outcome cfg dl cache = needs cfg out.new_redis_cache "init cache failed" with_cache
  outcome cfg dl discovery =
      needs cfg (λ g. out.new_consul_discovery g dl) "init discovery failed" with_discovery
  outcome cfg dl message_queue =
      needs cfg (λ g. out.new_nats_client g dl) "init message queue failed" with_message_queue
  outcome cfg dl auth = needs cfg out.new_authenticator "init auth failed" with_authenticator
  outcome cfg dl http_server = needs cfg (λ g. made (out.new_http_server g dl)) "" with_http_server
  outcome cfg dl grpc_server = needs cfg (λ g. made (out.new_grpc_server g dl)) "" with_grpc_server
  outcome cfg dl (health c) = made (with_health_config (some (given default_health_config c)))
  outcome cfg dl (metrics c) = made (with_metrics_config (given default_metrics_config c))
  outcome cfg dl (pprof c) = made (with_pprof_config (given default_pprof_config c))
  outcome cfg dl (before_start h) = made (AppOption.before_start h)
  outcome cfg dl (after_start h) = made (AppOption.after_start h)
  outcome cfg dl (before_stop h) = made (AppOption.before_stop h)
  outcome cfg dl (after_stop h) = made (AppOption.after_stop h)

-- The globals after an option: `config.Load` and the logger set them.
unfoldable pub config_after : {C H G M : Type 0} → AppOption C H G M → Option G → Option G
config_after (with_config cfg) old = some cfg
config_after _ old = old

unfoldable pub logger_after : {C H G M : Type 0} → AppOption C H G M → Option C → Option C
logger_after (with_logger c) old = some c
logger_after _ old = old

module _ {C H G M E : Type 0} (out : Outside C G E) (default_metrics_config : M) where
  -- The options of all calls in order, or the error of the first call that fails.
  unfoldable pub plan :
      Option G
      → Option C
      → List (BuilderCall C H G M)
      → Made (List (AppOption C H G M)) (BuildError E)
  unfolding outcome config_after logger_after
  plan cfg dl [] = made []
  plan cfg dl (c ∷ calls) = elim (outcome out default_metrics_config cfg dl c) [
    | failed e ↦ failed e
    | made opt ↦ elim (plan (config_after opt cfg) (logger_after opt dl) calls) [
      | failed e ↦ failed e
      | made opts ↦ made (opt ∷ opts)
    ]
  ]

  -- A builder after a call with this outcome.
  follow : Made (AppOption C H G M) (BuildError E) → Builder C H G M E → Builder C H G M E
  follow (failed e) b = record b { err = some e }
  follow (made opt) b = record b {
    opts = b.opts ++ opt ∷ [];
    config = config_after opt b.config;
    default_logger = logger_after opt b.default_logger;
  }

  call-follow :
      (c : BuilderCall C H G M) (b : Builder C H G M E)
      → b.err ≡ none
      → call out default_metrics_config c b
        ≡ follow (outcome out default_metrics_config b.config b.default_logger c) b
  unfolding call outcome follow add_option load_config init_with init_logger init_database
      init_cache init_discovery init_message_queue init_auth init_http_server init_grpc_server
      init_health init_metrics init_pprof config_after logger_after
  call-follow (name n) b h = refl
  call-follow c b h = ground arith

  -- After an error the calls change neither it nor the globals.
  call_after_error :
      (c : BuilderCall C H G M) (b : Builder C H G M E) (e : BuildError E)
      → b.err ≡ some e
      → (call out default_metrics_config c b).err ≡ some e
  unfolding call add_option load_config init_with init_logger init_database init_cache
      init_discovery init_message_queue init_auth init_http_server init_grpc_server init_health
      init_metrics init_pprof
  call_after_error (name n) b e h = h
  call_after_error c b e h = ground arith

  chain_after_error :
      (calls : List (BuilderCall C H G M)) (b : Builder C H G M E) (e : BuildError E)
      → b.err ≡ some e
      → build (chain out default_metrics_config calls b) ≡ failed e
  unfolding chain build
  chain_after_error [] b e h = rw h refl
  chain_after_error (c ∷ calls) b e h =
      chain_after_error calls (call out default_metrics_config c b) e (call_after_error c b e h)

  -- The application of the options, after those that are there.
  abbrev built :
      List (AppOption C H G M)
      → Made (List (AppOption C H G M)) (BuildError E)
      → Made (Application C H G M) (BuildError E)
  built before (failed e) = failed e
  built before (made opts) = made (new_app (before ++ opts))

  built-snoc :
      (before : List (AppOption C H G M)) (opt : AppOption C H G M)
      (rest : Made (List (AppOption C H G M)) (BuildError E))
      → built (before ++ opt ∷ []) rest
        ≡ built before (elim rest [ failed e ↦ failed e | made opts ↦ made (opt ∷ opts) ])
  built-snoc before opt (failed e) = refl
  built-snoc before opt (made opts) =
      ap (λ (l : List (AppOption C H G M)). made (new_app l)) (append_assoc before (opt ∷ []) opts)

  turn :
      (calls : List (BuilderCall C H G M)) (b : Builder C H G M E)
      → ((b' : Builder C H G M E)
          → b'.err ≡ none
          → build (chain out default_metrics_config calls b')
            ≡ built b'.opts (plan b'.config b'.default_logger calls))
      → (found : Made (AppOption C H G M) (BuildError E)) → b.err ≡ none
      → build (chain out default_metrics_config calls (follow found b))
        ≡ built b.opts (elim found [
          | failed e ↦ failed e
          | made opt ↦
              elim (plan (config_after opt b.config) (logger_after opt b.default_logger) calls) [
                | failed e ↦ failed e
                | made opts ↦ made (opt ∷ opts)
              ]
        ])
  unfolding follow
  turn calls b ih (failed e) h = chain_after_error calls _ e refl
  turn calls b ih (made opt) h =
      ih (follow (made opt) b) h
      ∙ built-snoc b.opts opt
          (plan (config_after opt b.config) (logger_after opt b.default_logger) calls)

  build-none : (b : Builder C H G M E) → b.err ≡ none → build b ≡ made (new_app b.opts)
  unfolding build
  build-none b h = rw h refl

  chain-plan_from :
      (calls : List (BuilderCall C H G M)) (b : Builder C H G M E)
      → b.err ≡ none
      → build (chain out default_metrics_config calls b)
        ≡ built b.opts (plan b.config b.default_logger calls)
  unfolding chain plan
  chain-plan_from [] b h = build-none b h ∙ ap (λ l. made (new_app l)) (sym (append-nil b.opts))
  chain-plan_from (c ∷ calls) b h =
      ap (λ b'. build (chain out default_metrics_config calls b')) (call-follow c b h)
      ∙ turn calls b (λ b' h'. chain-plan_from calls b' h')
          (outcome out default_metrics_config b.config b.default_logger c) h

  -- Whatever calls are chained on a new builder, in any order, `Build` answers the error of the first
  -- call that fails, and the later calls count for nothing; if none fails, it answers `New` of the
  -- options of all calls in their order, each component made under the configuration and the default
  -- logger that the calls before it have set.
  pub build-chain :
      (calls : List (BuilderCall C H G M)) (cfg : Option G) (dl : Option C)
      → build (chain out default_metrics_config calls (new_builder cfg dl))
        ≡ elim (plan cfg dl calls) [ failed e ↦ failed e | made opts ↦ made (new_app opts) ]
  unfolding new_builder
  build-chain calls cfg dl =
      chain-plan_from calls (new_builder cfg dl) refl ∙ built_all (plan cfg dl calls)
    where
      built_all :
          (p : Made (List (AppOption C H G M)) (BuildError E))
          → built [] p ≡ elim p [ failed e ↦ failed e | made opts ↦ made (new_app opts) ]
      built_all (failed e) = refl
      built_all (made opts) = refl
