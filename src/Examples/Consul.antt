-- ===== src/Examples/Consul.antt =====
-- Examples about pkg/config/consul.go. Data and configurations are numbers; 0 does not parse.
use goupter.Prelude.{
  ℕ, zero, suc, String, ◌≡◌, refl, Bool, true, false, none, some, List, [], ◌∷◌, ◌⊎◌, inl, inr,
}
use goupter.Consul.Center.{
  KvAnswer, kv_error, kv_answer, Center, new_consul_config_center, parse_config, load, watch,
  watch_turn, watch_loop, stop, on_change, format_of,
}
use goupter.Consul.CenterLaws.{
  Follows, changes, parsed, push, watch_loop-changes, load-watch_turn, watch-stop,
}

abbrev is_object : ℕ → Bool
is_object raw = false

abbrev read : String → ℕ → String ⊎ ℕ
read format zero = inl "yaml: empty"
read format (suc n) = inr (suc n)

abbrev center : Center ℕ String
center = (watch (on_change (on_change (new_consul_config_center none) "log") "cache")).0

-- Index 5 comes twice, index 6 does not parse, and index 4 is late.
abbrev answers : List (KvAnswer ℕ String)
answers =
    kv_answer (some 1) 5
    ∷ kv_error "timeout"
    ∷ kv_answer (some 1) 5
    ∷ kv_answer (some 0) 6
    ∷ kv_answer (some 2) 4
    ∷ kv_answer (some 3) 7
    ∷ []

changes_listed : changes (parse_config {F = String} is_object read center) 0 answers ≡ 1 ∷ 3 ∷ []
unfolding changes parsed push parse_config watch on_change new_consul_config_center format_of
changes_listed = refl

watch_loop-changes_example :
    Follows center
      (watch_loop is_object read center answers)
      (changes (parse_config is_object read center) center.last_index answers)
unfolding watch on_change new_consul_config_center
watch_loop-changes_example = watch_loop-changes is_object read center answers refl refl refl

load-watch_turn_example :
    ((load is_object read center (kv_answer (some 9) 8)).0.config ≡ some 9)
    × ((load is_object read center (kv_answer (some 9) 8)).0.called ≡ center.called)
    × (watch_turn is_object read
          (load is_object read center (kv_answer (some 9) 8)).0
          (load is_object read center (kv_answer (some 9) 8)).0.last_index
          (kv_answer (some 9) 8)
        ≡ (load is_object read center (kv_answer (some 9) 8)).0)
unfolding parse_config
load-watch_turn_example = load-watch_turn is_object read center 9 8 9 refl

abbrev ended : Center ℕ String
ended = record center { cancelled = true; stopped = true; is_watching = false }

watch-stop_example :
    ((watch ended).0.is_watching ≡ true)
    × (watch_loop is_object read (watch ended).0 answers ≡ (watch ended).0)
    × (stop (watch ended).0 ≡ none)
unfolding stop watch on_change new_consul_config_center
watch-stop_example = watch-stop is_object read center ended answers refl
