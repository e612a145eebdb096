-- ===== src/Examples/Builder.antt =====
-- Examples about pkg/app/options.go. Components, hooks and configurations are numbers and texts.
use goupter.Prelude.{ℕ, ◌≡◌, refl, String, none, some, List, [], ◌∷◌}
use goupter.App.Builder.{
  AppOption, with_name, with_config, with_logger, with_database, new_app, LoadOption, Made, made,
  failed, config_not_loaded, Outside, new_builder, build, must_build, init_cache, load_config,
}
use goupter.App.BuilderLaws.{BuilderCall, chain, plan, build-chain}

-- The default that the last option of the kind sets, or what there is.
abbrev loaded : ℕ → List (LoadOption ℕ) → Made ℕ String
loaded cfg [] = made cfg
loaded cfg (LoadOption.with_default d ∷ opts) = loaded d opts
loaded cfg (opt ∷ opts) = loaded cfg opts

-- The cache cannot be reached.
abbrev outside : Outside String ℕ String
outside = record {
  load = λ opts. loaded 1 opts;
  new_zap_logger = λ cfg. made "zap";
  new_mysql = λ cfg logger. elim logger [ none ↦ made "quiet db" | some name ↦ made "db" ];
  new_redis_cache = λ cfg. failed "refused";
  new_consul_discovery = λ cfg logger. made "consul";
  new_nats_client = λ cfg logger. made "nats";
  new_authenticator = λ cfg. made "jwt";
  new_http_server = λ cfg logger. "http";
  new_grpc_server = λ cfg logger. "grpc";
}

abbrev calls : List (BuilderCall String String ℕ ℕ)
calls =
    BuilderCall.name "shop"
    ∷ BuilderCall.config (LoadOption.with_default 4 ∷ [])
    ∷ BuilderCall.database
    ∷ BuilderCall.logger
    ∷ BuilderCall.before_start "warm"
    ∷ []

build-chain_example :
    build (chain outside 0 calls (new_builder none none)) ≡ elim (plan outside 0 none none calls) [
      | failed e ↦ failed e
      | made opts ↦ made (new_app opts)
    ]
build-chain_example = build-chain outside 0 calls none none

-- The database is made before the logger is set.
planned :
    plan outside 0 none none calls
    ≡ made (
        with_name "shop"
        ∷ with_config 4
        ∷ with_database "quiet db"
        ∷ with_logger "zap"
        ∷ AppOption.before_start "warm"
        ∷ [])
unfolding plan
planned = refl

abbrev cache_first : List (BuilderCall String String ℕ ℕ)
cache_first = BuilderCall.cache ∷ BuilderCall.config [] ∷ BuilderCall.cache ∷ []

abbrev cache_last : List (BuilderCall String String ℕ ℕ)
cache_last = BuilderCall.config [] ∷ BuilderCall.cache ∷ []

first_error : build (chain outside 0 cache_first (new_builder none none)) ≡ failed config_not_loaded
unfolding chain build new_builder init_cache load_config
first_error = refl

refused : must_build (chain outside 0 cache_last (new_builder none none)) ≡ none
unfolding chain must_build new_builder init_cache load_config
refused = refl
