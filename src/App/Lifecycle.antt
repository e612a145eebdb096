-- ===== src/App/Lifecycle.antt =====
-- `Run` and `Shutdown` of pkg/app/app.go. A hook, a server or a client is outside: the model lists the
-- calls on them in order and takes the error that each answers as a parameter. No other goroutine
-- changes the application between the steps of one call; the goroutines of the servers are the calls
-- `start_http` and `start_grpc`.
use goupter.Prelude.{
  String, Bool, true, false, Option, none, some, List, [], ◌∷◌, ◌++◌, ◌==◌, string_key, is_none,
  if◌then◌else◌,
}
use goupter.Prelude.Int.{ℤ}

-- `ServiceInfo`
pub record ServiceInfo : Type 0 where
  pub id : String
  pub name : String
  pub address : String
  pub port : ℤ
  pub tags : List String

pub data Call (H : Type 0) : Type 0 where
  hook : H → Call H
  -- `registerBuiltinHTTPEndpoints`
  endpoints : Call H
  start_http : Call H
  start_grpc : Call H
  register : ServiceInfo → Call H
  deregister : String → Call H
  stop_http : Call H
  stop_grpc : Call H
  close_mq : Call H
  close_cache : Call H
  -- `a.db.DB()` and `sqlDB.Close()`
  sql_db : Call H
  close_db : Call H
  close_discovery : Call H
  sync_log : Call H
  info : String → Call H
  warn : String → Call H
  -- `<-quit`
  wait : Call H

-- What `Run` and `Shutdown` read of the configuration.
pub record ServiceConfig : Type 0 where
  pub host : String
  pub advertise_host : String
  pub http_port : ℤ
  pub service_id : String
  pub service_name : String
  pub service_tags : List String

-- A flag says that the component is not nil.
pub record App (H : Type 0) : Type 0 where
  pub config : Option ServiceConfig
  pub has_logger : Bool
  pub has_http : Bool
  pub has_grpc : Bool
  pub has_db : Bool
  pub has_cache : Bool
  pub has_discovery : Bool
  pub has_mq : Bool
  pub before_start : List H
  pub after_start : List H
  pub before_stop : List H
  pub after_stop : List H
  pub running : Bool

pub data RunError (E : Type 0) : Type 0 where
  already_running : RunError E
  before_start_failed : E → RunError E
  after_start_failed : E → RunError E

module _ {H E : Type 0} (outcome : Call H → Option E) where
  -- The calls that are made where a flag holds.
  abbrev pub only_if : Bool → List (Call H) → List (Call H)
  only_if flag calls = if flag then calls else []

  -- The hooks up to the first that fails, and its error.
  unfoldable pub start_hooks : List H → List (Call H) × Option E
  start_hooks [] = ([], none)
  start_hooks (h ∷ hooks) =
      let rest = start_hooks hooks in
      elim (outcome (Call.hook h)) [
        | none ↦ (Call.hook h ∷ rest.0, rest.1)
        | some e ↦ (Call.hook h ∷ [], some e)
      ]

  -- A call whose error is logged and dropped.
  unfoldable pub attempt : Bool → String → Call H → List (Call H)
  attempt logger message call =
      call ∷ (if is_none (outcome call) then [] else only_if logger (Call.warn message ∷ []))

  unfoldable pub stop_hooks : Bool → String → List H → List (Call H)
  unfolding attempt
  stop_hooks logger message [] = []
  stop_hooks logger message (h ∷ hooks) =
      attempt logger message (Call.hook h) ++ stop_hooks logger message hooks

  unfoldable pub service_info : ServiceConfig → ServiceInfo
  service_info cfg = record {
    id = cfg.service_id;
    name = cfg.service_name;
    address = if cfg.advertise_host == "" then cfg.host else cfg.advertise_host;
    port = cfg.http_port;
    tags = cfg.service_tags;
  }

  unfoldable pub register_calls : App H → List (Call H)
  unfolding service_info attempt
  register_calls a = elim a.config [
    | none ↦ []
    | some cfg ↦
        only_if a.has_discovery
          (attempt a.has_logger "register service failed" (Call.register (service_info cfg)))
  ]

  unfoldable pub deregister_calls : App H → List (Call H)
  deregister_calls a = elim a.config [
    | none ↦ []
    | some cfg ↦ only_if a.has_discovery (Call.deregister cfg.service_id ∷ [])
  ]

  unfoldable pub db_calls : App H → List (Call H)
  db_calls a =
      only_if a.has_db
        (Call.sql_db ∷ (if is_none (outcome Call.sql_db) then Call.close_db ∷ [] else []))

  -- The steps of `Shutdown` once `running` is cleared.
  unfoldable pub shutdown_calls : App H → List (Call H)
  unfolding stop_hooks attempt deregister_calls db_calls
  shutdown_calls a =
      stop_hooks a.has_logger "before stop hook failed" a.before_stop
      ++ (deregister_calls a
          ++ (only_if a.has_http (attempt a.has_logger "stop HTTP server failed" Call.stop_http)
              ++ (only_if a.has_grpc (attempt a.has_logger "stop gRPC server failed" Call.stop_grpc)
                  ++ (only_if a.has_mq
                        (attempt a.has_logger "close message queue failed" Call.close_mq)
                      ++ (only_if a.has_cache
                            (attempt a.has_logger "close cache failed" Call.close_cache)
                          ++ (db_calls a
                              ++ (only_if a.has_discovery (Call.close_discovery ∷ [])
                                  ++ (stop_hooks a.has_logger "after stop hook failed" a.after_stop
                                      ++ only_if a.has_logger (
                                          Call.sync_log
                                          ∷ Call.info "application stopped"
                                          ∷ [])))))))))

  unfoldable pub shutdown : App H → App H × List (Call H)
  unfolding shutdown_calls
  shutdown a = if a.running then (record a { running = false }, shutdown_calls a) else (a, [])

  -- `Run` between the start hooks: the servers and the registration.
  unfoldable pub start_calls : App H → List (Call H)
  unfolding register_calls
  start_calls a =
      only_if a.has_http (Call.endpoints ∷ Call.start_http ∷ [])
      ++ (only_if a.has_grpc (Call.start_grpc ∷ []) ++ register_calls a)

  -- The rest of `Run` after all hooks have succeeded.
  unfoldable pub finish : App H → App H × List (Call H)
  unfolding shutdown
  finish a =
      let (a', calls) = shutdown a in
      (
        a',
        only_if a.has_logger (Call.info "application started" ∷ [])
            ++ (Call.wait ∷ only_if a.has_logger (Call.info "shutting down application..." ∷ []))
            ++ calls,
      )

  unfoldable pub run : App H → App H × List (Call H) × Option (RunError E)
  unfolding start_hooks start_calls finish
  run a =
      if a.running
      then (a, [], some RunError.already_running)
      else (let a' = record a { running = true } in
          let (before, failed) = start_hooks a.before_start in
          elim failed [
            | some e ↦ (a', before, some (RunError.before_start_failed e))
            | none ↦
                let (after, failed') = start_hooks a.after_start in
                elim failed' [
                  | some e ↦
                      (a', before ++ (start_calls a ++ after), some (RunError.after_start_failed e))
                  | none ↦
                      let (a'', calls) = finish a' in
                      (a'', before ++ (start_calls a ++ (after ++ calls)), none)
                ]
          ])
