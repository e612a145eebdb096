-- ===== src/App/LifecycleLaws.antt =====
-- What `Run` and `Shutdown` do, and in which order.
use goupter.Prelude.{
  String, ◌≡◌, refl, ◌∙◌, ◌↔◌, Bool, true, false, not, ◌&&◌, Option, none, some, List, [], ◌∷◌,
  ◌++◌, map, is_none, if◌then◌else◌, arith,
}
use goupter.App.Lifecycle.{
  Call, App, RunError, start_hooks, attempt, stop_hooks, deregister_calls, db_calls, shutdown_calls,
  shutdown, finish, run, only_if,
}

-- The calls other than warnings.
unfoldable pub unlogged : {H : Type 0} → List (Call H) → List (Call H)
unlogged [] = []
unlogged (Call.warn message ∷ calls) = unlogged calls
unlogged (call ∷ calls) = call ∷ unlogged calls

-- A call that is no warning.
abbrev is_step : {H : Type 0} → Call H → Bool
is_step (Call.warn message) = false
is_step call = true

-- The steps of a shutdown, which depend on no error but that of `a.db.DB()`.
abbrev pub shutdown_plan : {H : Type 0} → App H → Bool → List (Call H)
shutdown_plan a db_ok =
    map Call.hook a.before_stop
    ++ ((elim a.config [
      | none ↦ []
      | some cfg ↦ if a.has_discovery then Call.deregister cfg.service_id ∷ [] else []
    ])
        ++ ((if a.has_http then Call.stop_http ∷ [] else [])
            ++ ((if a.has_grpc then Call.stop_grpc ∷ [] else [])
                ++ ((if a.has_mq then Call.close_mq ∷ [] else [])
                    ++ ((if a.has_cache then Call.close_cache ∷ [] else [])
                        ++ ((if a.has_db
                              then Call.sql_db ∷ (if db_ok then Call.close_db ∷ [] else [])
                              else [])
                            ++ ((if a.has_discovery then Call.close_discovery ∷ [] else [])
                                ++ (map Call.hook a.after_stop
                                    ++ (if a.has_logger
                                        then Call.sync_log ∷ Call.info "application stopped" ∷ []
                                        else [])))))))))

unlogged-append :
    {H : Type 0} (xs ys : List (Call H)) → unlogged (xs ++ ys) ≡ unlogged xs ++ unlogged ys
unfolding unlogged
unlogged-append [] ys = refl
unlogged-append (call ∷ xs) ys = ground (arith, unlogged-append xs ys)

both :
    {H : Type 0} (xs xs' ys ys' : List (Call H))
    → unlogged xs ≡ xs'
    → unlogged ys ≡ ys'
    → unlogged (xs ++ ys) ≡ xs' ++ ys'
both xs xs' ys ys' p q = unlogged-append xs ys ∙ rw (p, q) refl

-- Calls of `Run` one after another, each with its own answers of the hooks and components.
unfoldable pub run_each :
    {H E : Type 0}
    → List (Call H → Option E)
    → App H
    → App H × List (List (Call H) × Option (RunError E))
run_each [] a = (a, [])
run_each (later ∷ rest) a =
    let (a', calls, err) = run later a in
    let (a'', results) = run_each rest a' in (a'', (calls, err) ∷ results)

module _ {H E : Type 0} (outcome : Call H → Option E) where
  unlogged-attempt :
      (logger : Bool) (message : String) (call : Call H)
      → is_step call ≡ true
      → unlogged (attempt outcome logger message call) ≡ call ∷ []
  unfolding attempt unlogged
  unlogged-attempt logger message call h = ground arith

  unlogged-stop_hooks :
      (logger : Bool) (message : String) (hooks : List H)
      → unlogged (stop_hooks outcome logger message hooks) ≡ map Call.hook hooks
  unfolding stop_hooks unlogged
  unlogged-stop_hooks logger message [] = refl
  unlogged-stop_hooks logger message (h ∷ hooks) =
      both (attempt outcome logger message (Call.hook h)) (Call.hook h ∷ []) _ _
        (unlogged-attempt logger message (Call.hook h) refl)
        (unlogged-stop_hooks logger message hooks)

  guarded :
      (flag logger : Bool) (message : String) (call : Call H)
      → is_step call ≡ true
      → unlogged (only_if outcome flag (attempt outcome logger message call))
        ≡ (if flag then call ∷ [] else [])
  unfolding unlogged
  guarded true logger message call h = unlogged-attempt logger message call h
  guarded false logger message call h = refl

  plain :
      (flag : Bool) (call : Call H)
      → is_step call ≡ true
      → unlogged (only_if outcome flag (call ∷ [])) ≡ (if flag then call ∷ [] else [])
  unfolding unlogged
  plain flag call h = ground arith

  unlogged-deregister_calls :
      (a : App H)
      → unlogged (deregister_calls outcome a) ≡ (elim a.config [
        | none ↦ []
        | some cfg ↦ if a.has_discovery then Call.deregister cfg.service_id ∷ [] else []
      ])
  unfolding deregister_calls unlogged
  unlogged-deregister_calls a = ground arith

  unlogged-db_calls :
      (a : App H)
      → unlogged (db_calls outcome a) ≡ (
          if a.has_db
          then Call.sql_db ∷ (if is_none (outcome Call.sql_db) then Call.close_db ∷ [] else [])
          else [])
  unfolding db_calls unlogged
  unlogged-db_calls a = ground arith

  last_calls :
      (flag : Bool)
      → unlogged (only_if outcome flag (Call.sync_log ∷ Call.info "application stopped" ∷ []))
        ≡ (if flag then Call.sync_log ∷ Call.info "application stopped" ∷ [] else [])
  unfolding unlogged
  last_calls flag = ground arith

  unlogged-shutdown_calls :
      (a : App H)
      → unlogged (shutdown_calls outcome a) ≡ shutdown_plan a (is_none (outcome Call.sql_db))
  unfolding shutdown_calls
  unlogged-shutdown_calls a =
      both _ _ _ _ (unlogged-stop_hooks a.has_logger "before stop hook failed" a.before_stop) (
        both _ _ _ _ (unlogged-deregister_calls a) (
          both _ _ _ _
            (guarded a.has_http a.has_logger "stop HTTP server failed" Call.stop_http refl)
            (both _ _ _ _
              (guarded a.has_grpc a.has_logger "stop gRPC server failed" Call.stop_grpc refl)
              (both _ _ _ _
                (guarded a.has_mq a.has_logger "close message queue failed" Call.close_mq refl)
                (both _ _ _ _
                  (guarded a.has_cache a.has_logger "close cache failed" Call.close_cache refl)
                  (both _ _ _ _ (unlogged-db_calls a) (
                    both _ _ _ _ (plain a.has_discovery Call.close_discovery refl) (
                      both _ _ _ _
                        (unlogged-stop_hooks a.has_logger "after stop hook failed" a.after_stop)
                        (last_calls a.has_logger)))))))))

  -- A running application shuts down in a fixed order: the hooks before the stop, the deregistration,
  -- the servers, the queue, the cache, the database, the discovery client, the hooks after the stop
  -- and the log. Every step whose component is there is made, each once, whatever the hooks and the
  -- components answer: an error is at most logged. Only a database handle that cannot be had is not
  -- closed. Afterwards the application does not run, and a second shutdown makes no call at all.
  pub shutdown-shutdown_plan :
      (a : App H)
      → a.running ≡ true
      → (unlogged (shutdown outcome a).1 ≡ shutdown_plan a (is_none (outcome Call.sql_db)))
        × ((shutdown outcome a).0.running ≡ false)
        × (shutdown outcome (shutdown outcome a).0 ≡ ((shutdown outcome a).0, []))
  unfolding shutdown
  shutdown-shutdown_plan a on = (rw on (unlogged-shutdown_calls a), rw on refl, rw on refl)

  -- No hook of the row fails.
  pub all_succeed : List H → Bool
  all_succeed [] = true
  all_succeed (h ∷ hooks) = is_none (outcome (Call.hook h)) && all_succeed hooks

  start_hooks_succeed : (hooks : List H) → is_none (start_hooks outcome hooks).1 ≡ all_succeed hooks
  unfolding start_hooks all_succeed
  start_hooks_succeed [] = refl
  start_hooks_succeed (h ∷ hooks) = ground (arith, start_hooks_succeed hooks)

  -- `Run` returns without an error exactly when the application was not running and no start hook
  -- fails. The application is marked as running afterwards exactly when `Run` returns an error.
  pub run_succeeds :
      (a : App H)
      → (((run outcome a).2 ≡ none) ↔ (
          (a.running ≡ false)
          × (all_succeed a.before_start ≡ true)
          × (all_succeed a.after_start ≡ true)))
        × ((run outcome a).0.running ≡ not (is_none (run outcome a).2))
  unfolding run finish shutdown
  run_succeeds a =
      ground (arith, start_hooks_succeed a.before_start, start_hooks_succeed a.after_start)

  running_of_run_failed :
      (a : App H) (err : RunError E)
      → (run outcome a).2 ≡ some err
      → (run outcome a).0.running ≡ true
  unfolding run
  running_of_run_failed a err h = ground arith

  run_when_running :
      (later : Call H → Option E) (a : App H)
      → a.running ≡ true
      → run later a ≡ (a, [], some RunError.already_running)
  unfolding run
  run_when_running later a h = ground arith

  run_each_when_running :
      (laters : List (Call H → Option E)) (a : App H)
      → a.running ≡ true
      → run_each laters a ≡ (a, map (λ later. ([], some RunError.already_running)) laters)
  unfolding run_each
  run_each_when_running [] a h = refl
  run_each_when_running (later ∷ rest) a h =
      rw (run_when_running later a h, run_each_when_running rest a h) refl

  -- A `Run` that fails, for instance at a start hook, leaves the application marked as running although
  -- it has returned: however often `Run` is called after it with no `Shutdown` between, each call fails
  -- with "already running", changes nothing and makes no call, not even to the hook, also when the hook
  -- would succeed by then.
  pub run_failed :
      (a : App H) (err : RunError E) (laters : List (Call H → Option E))
      → (run outcome a).2 ≡ some err
      → run_each laters (run outcome a).0
        ≡ ((run outcome a).0, map (λ later. ([], some RunError.already_running)) laters)
  run_failed a err laters h =
      run_each_when_running laters (run outcome a).0 (running_of_run_failed a err h)
