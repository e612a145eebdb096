-- ===== src/Consul/Center.antt =====
-- `ConsulSource` and `ConsulConfigCenter` of pkg/config/consul.go, as one state: the center has its
-- source. The client of Consul is a parameter, by the answers that it gives. A step is what one
-- goroutine does between two calls of the client. `D` is the data under a path, `C` a configuration,
-- `E` an error and `F` a callback.
use goupter.Prelude.{
  ℕ, String, Bool, true, false, ◌||◌, Option, none, some, List, [], ◌∷◌, ◌++◌, map, ◌==◌, ◌⊎◌, inl,
  inr, string_key, ltb, if◌then◌else◌,
}
use goupter.Prelude.Int.{ℤ, pos}

-- What `kv.Get` answers: an error, or the pair's value, none for a nil pair, and `LastIndex`.
pub data KvAnswer (D E : Type 0) : Type 0 where
  kv_error : E → KvAnswer D E
  kv_answer : Option D → ℕ → KvAnswer D E

pub data LoadError (E : Type 0) : Type 0 where
  get_failed : E → LoadError E
  path_missing : LoadError E
  parse_failed : E → LoadError E

-- `cancelled` and `stopped` say that the context is cancelled and the channel `watchStop` closed; `has_hook`
-- that `onChangeFn` is the one of `Watch`; `global` is the configuration of the package; `called` are the calls of
-- the callbacks, in order.
pub record Center (C F : Type 0) : Type 0 where
  pub last_index : ℕ
  pub stopped : Bool
  pub has_hook : Bool
  pub config : Option C
  pub global : Option C
  pub callbacks : List F
  pub cancelled : Bool
  pub is_watching : Bool
  pub format : String
  pub auto_refresh : Bool
  pub refresh_interval : ℤ
  pub called : List (F × C)

-- Without options; `global` is what the package has already.
unfoldable pub new_consul_config_center : {C F : Type 0} → Option C → Center C F
new_consul_config_center global = record {
  last_index = 0;
  stopped = false;
  has_hook = false;
  config = none;
  global = global;
  callbacks = [];
  cancelled = false;
  is_watching = false;
  format = "yaml";
  auto_refresh = false;
  refresh_interval = pos 60000000000;
  called = [];
}

-- `is_object` says that the data begins with a brace.
unfoldable pub format_of : String → Bool → String
format_of format is_object =
    let found : String = if format == "" then (if is_object then "json" else "yaml") else format in
    if found == "yml" then "yaml" else found

module _ {D C E F : Type 0} (is_object : D → Bool) (read : String → D → E ⊎ C) where
  -- `read` is viper's reading of data of a type into an empty configuration.
  unfoldable pub parse_config : Center C F → D → E ⊎ C
  unfolding format_of
  parse_config c raw = read (format_of c.format (is_object raw)) raw

  -- `ConsulSource.Load`
  unfoldable pub load_source : Center C F → KvAnswer D E → Center C F × (LoadError E ⊎ D)
  load_source c (kv_error e) = (c, inl (get_failed e))
  load_source c (kv_answer none index) = (c, inl path_missing)
  load_source c (kv_answer (some raw) index) = (record c { last_index = index }, inr raw)

  -- After the source; both configurations are set.
  unfoldable pub store : Center C F → E ⊎ C → Center C F × (LoadError E ⊎ C)
  store c (inl e) = (c, inl (parse_failed e))
  store c (inr cfg) = (record c { config = some cfg; global = some cfg }, inr cfg)

  unfoldable pub parse_loaded : Center C F × (LoadError E ⊎ D) → Center C F × (LoadError E ⊎ C)
  unfolding parse_config store
  parse_loaded (c, inl e) = (c, inl e)
  parse_loaded (c, inr raw) = store c (parse_config c raw)

  -- `ConsulConfigCenter.Load`
  unfoldable pub load : Center C F → KvAnswer D E → Center C F × (LoadError E ⊎ C)
  unfolding load_source parse_loaded
  load c answer = parse_loaded (load_source c answer)

  -- The function that `Watch` sets as the hook.
  unfoldable pub on_changed : Center C F → E ⊎ C → Center C F
  on_changed c (inl e) = c
  on_changed c (inr cfg) = record c {
    config = some cfg;
    global = some cfg;
    called = c.called ++ map (λ fn. (fn, cfg)) c.callbacks;
  }

  -- One turn of `ConsulSource.Watch` with the answer; `seen` is the index that it asked with.
  unfoldable pub watch_turn : Center C F → ℕ → KvAnswer D E → Center C F
  unfolding parse_config on_changed
  watch_turn c seen (kv_error e) = c
  watch_turn c seen (kv_answer pair index) =
      if ltb seen index
      then (let c' = record c { last_index = index } in
          elim pair [
            | none ↦ c'
            | some raw ↦ if c.has_hook then on_changed c' (parse_config c' raw) else c'
          ])
      else c

  -- The loop over a number of answers, in which the goroutine runs alone: each turn tests whether to
  -- end, and asks with the index of the source.
  unfoldable pub watch_loop : Center C F → List (KvAnswer D E) → Center C F
  unfolding watch_turn
  watch_loop c [] = c
  watch_loop c (answer ∷ answers) =
      let rest = watch_loop (watch_turn c c.last_index answer) answers in
      if c.cancelled || c.stopped then c else rest

module _ {C F : Type 0} where
  -- `Watch`, and whether the goroutine of the source is started.
  unfoldable pub watch : Center C F → Center C F × Bool
  watch c =
      if c.is_watching then (c, false) else (record c { is_watching = true; has_hook = true }, true)

  -- None is the panic of `close` on a closed channel.
  unfoldable pub stop : Center C F → Option (Center C F)
  stop c =
      if c.stopped
      then none
      else some (record c { cancelled = true; stopped = true; is_watching = false })

  unfoldable pub on_change : Center C F → F → Center C F
  on_change c fn = record c { callbacks = c.callbacks ++ fn ∷ [] }

  -- The encoder that `Save` takes.
  unfoldable pub saves_json : Center C F → Bool
  saves_json c = c.format == "json"
