-- ===== src/Consul/CenterLaws.antt =====
-- What the watch of pkg/config/consul.go passes on, and what it misses.
use mathlib.Core.Path.{subst}
use mathlib.Core.List.{append_assoc, append-nil}
use goupter.Prelude.{
  ℕ, String, ◌≡◌, refl, sym, ap, ◌∙◌, Bool, true, false, ◌||◌, Option, none, some, List, [], ◌∷◌,
  ◌++◌, map, ◌⊎◌, inl, inr, ltb, Bool-cases, arith, if◌then◌else◌,
}
use goupter.Consul.Center.{
  KvAnswer, kv_error, kv_answer, Center, parse_config, load_source, parse_loaded, store, load,
  on_changed, watch_turn, watch_loop, watch, stop,
}

-- What is parsed of a pair.
unfoldable pub parsed : {D C E : Type 0} → (D → E ⊎ C) → Option D → Option C
parsed parse none = none
parsed parse (some raw) = elim (parse raw) [ inl e ↦ none | inr cfg ↦ some cfg ]

unfoldable pub push : {C : Type 0} → Option C → List C → List C
push none cfgs = cfgs
push (some cfg) cfgs = cfg ∷ cfgs

-- The configurations in the answers whose index is greater than all before it, and than `last`.
unfoldable pub changes : {D C E : Type 0} → (D → E ⊎ C) → ℕ → List (KvAnswer D E) → List C
unfolding parsed push
changes parse last [] = []
changes parse last (kv_error e ∷ answers) = changes parse last answers
changes parse last (kv_answer pair index ∷ answers) =
    let later = changes parse index answers in
    let same = changes parse last answers in
    if ltb last index then push (parsed parse pair) later else same

-- Every callback, in order, on every configuration.
pub each : {C F : Type 0} → List F → List C → List (F × C)
each fns [] = []
each fns (cfg ∷ cfgs) = map (λ fn. (fn, cfg)) fns ++ each fns cfgs

pub last_or : {C : Type 0} → Option C → List C → Option C
last_or c [] = c
last_or c (cfg ∷ cfgs) = last_or (some cfg) cfgs

-- The center `r` is the center `c` after the changes.
pub record Follows {C F : Type 0} (c r : Center C F) (cfgs : List C) : Type 0 where
  pub called : r.called ≡ c.called ++ each c.callbacks cfgs
  pub config : r.config ≡ last_or c.config cfgs
  pub global : r.global ≡ last_or c.global cfgs

neither : (a b : Bool) → a ≡ false → b ≡ false → (a || b) ≡ false
neither a b k l = ground arith

moved :
    {C F : Type 0} {c r r' : Center C F} {cfgs cfgs' : List C}
    → r' ≡ r
    → cfgs' ≡ cfgs
    → Follows c r cfgs
    → Follows c r' cfgs'
moved {c = c} p q f = record {
  called = ap (λ r. r.called) p ∙ f.called ∙ ap (λ l. c.called ++ each c.callbacks l) (sym q);
  config = ap (λ r. r.config) p ∙ f.config ∙ ap (last_or c.config) (sym q);
  global = ap (λ r. r.global) p ∙ f.global ∙ ap (last_or c.global) (sym q);
}

module _ {D C E F : Type 0} (is_object : D → Bool) (read : String → D → E ⊎ C) where
  -- The center after an index, and what was parsed with it.
  applied : Center C F → ℕ → Option C → Center C F
  applied c index none = record c { last_index = index }
  applied c index (some cfg) = on_changed is_object read (record c { last_index = index }) (inr cfg)

  Follows-applied :
      (c r : Center C F) (index : ℕ) (x : Option C) (cfgs : List C)
      → Follows (applied c index x) r cfgs
      → Follows c r (push x cfgs)
  unfolding applied on_changed push each last_or
  Follows-applied c r index none cfgs f = record {
    called = f.called;
    config = f.config;
    global = f.global;
  }
  Follows-applied c r index (some cfg) cfgs f = record {
    called =
        f.called
        ∙ append_assoc c.called (map (λ fn. (fn, cfg)) c.callbacks) (each c.callbacks cfgs);
    config = f.config;
    global = f.global;
  }

  hook_called :
      (c : Center C F) (index : ℕ) (x : E ⊎ C) (b : Bool)
      → b ≡ true
      → (if b
          then on_changed is_object read (record c { last_index = index }) x
          else record c { last_index = index })
        ≡ applied c index (elim x [ inl e ↦ none | inr cfg ↦ some cfg ])
  unfolding applied on_changed
  hook_called c index (inl e) true h = refl
  hook_called c index (inr cfg) true h = refl
  hook_called c index x false h = ground (arith, h)

  pair_old :
      (c : Center C F) (index : ℕ) (pair : Option D)
      → ltb c.last_index index ≡ false
      → watch_turn is_object read c c.last_index (kv_answer pair index) ≡ c
  unfolding watch_turn
  pair_old c index pair e = rw e refl

  pair_taken :
      (c : Center C F) (index : ℕ) (pair : Option D)
      → c.has_hook ≡ true
      → ltb c.last_index index ≡ true
      → watch_turn is_object read c c.last_index (kv_answer pair index)
        ≡ applied c index (parsed (parse_config is_object read c) pair)
  unfolding watch_turn parsed applied parse_config
  pair_taken c index none h e = rw e refl
  pair_taken c index (some raw) h e =
      rw e (hook_called c index (parse_config is_object read c raw) c.has_hook h)

  loop_goes_on :
      (c : Center C F) (answer : KvAnswer D E) (answers : List (KvAnswer D E))
      → c.cancelled ≡ false
      → c.stopped ≡ false
      → watch_loop is_object read c (answer ∷ answers)
        ≡ watch_loop is_object read (watch_turn is_object read c c.last_index answer) answers
  unfolding watch_loop
  loop_goes_on c answer answers k l =
      ap
        (λ (b : Bool).
          if b
          then c
          else watch_loop is_object read (watch_turn is_object read c c.last_index answer) answers)
        (neither c.cancelled c.stopped k l)

  newer :
      (answers : List (KvAnswer D E))
      → ((c : Center C F)
          → c.has_hook ≡ true
          → c.cancelled ≡ false
          → c.stopped ≡ false
          → Follows c
              (watch_loop is_object read c answers)
              (changes (parse_config is_object read c) c.last_index answers))
      → (c : Center C F) (index : ℕ) (x : Option C) → c.has_hook ≡ true
      → c.cancelled ≡ false
      → c.stopped ≡ false
      → Follows c
          (watch_loop is_object read (applied c index x) answers)
          (push x (changes (parse_config is_object read c) index answers))
  unfolding applied on_changed parse_config
  newer answers ih c index none h k l =
      Follows-applied c _ index none _ (ih (applied c index none) h k l)
  newer answers ih c index (some cfg) h k l =
      Follows-applied c _ index (some cfg) _ (ih (applied c index (some cfg)) h k l)

  -- A watch that is neither cancelled nor stopped, and whose hook is set, follows the data: whatever
  -- answers come, each callback is called once, in the order of registration, on each configuration
  -- that comes with an index greater than all before it and that parses, in their order, and the last one
  -- is the configuration of the center and of the package; errors, old indices, missing pairs and
  -- data that does not parse change neither.
  pub watch_loop-changes :
      (c : Center C F) (answers : List (KvAnswer D E))
      → c.has_hook ≡ true
      → c.cancelled ≡ false
      → c.stopped ≡ false
      → Follows c
          (watch_loop is_object read c answers)
          (changes (parse_config is_object read c) c.last_index answers)
  unfolding changes watch_loop watch_turn each last_or
  watch_loop-changes c [] h k l = record {
    called = sym (append-nil c.called);
    config = refl;
    global = refl;
  }
  watch_loop-changes c (kv_error e ∷ answers) h k l =
      subst (λ r. Follows c r (changes (parse_config is_object read c) c.last_index answers))
        (sym (loop_goes_on c (kv_error e) answers k l)) (watch_loop-changes c answers h k l)
  watch_loop-changes c (kv_answer pair index ∷ answers) h k l =
      elim (Bool-cases (ltb c.last_index index)) [
        | inl e ↦
            moved
              (loop_goes_on c (kv_answer pair index) answers k l
                ∙ ap (λ c'. watch_loop is_object read c' answers) (pair_taken c index pair h e))
              (rw e refl)
              (newer answers (λ c h k l. watch_loop-changes c answers h k l) c index
                (parsed (parse_config is_object read c) pair) h k l)
        | inr e ↦
            moved
              (loop_goes_on c (kv_answer pair index) answers k l
                ∙ ap (λ c'. watch_loop is_object read c' answers) (pair_old c index pair e))
              (rw e refl) (watch_loop-changes c answers h k l)
      ]

  -- A configuration that `Load` brings, as it does with the automatic refresh, is never passed to the
  -- callbacks: the watch that asks next has its index already, and takes the same answer as no change.
  pub load-watch_turn :
      (c : Center C F) (raw : D) (index : ℕ) (cfg : C)
      → parse_config is_object read c raw ≡ inr cfg
      → let c' = (load is_object read c (kv_answer (some raw) index)).0 in
        (c'.config ≡ some cfg)
        × (c'.called ≡ c.called)
        × (watch_turn is_object read c' c'.last_index (kv_answer (some raw) index) ≡ c')
  unfolding load load_source parse_loaded store watch_turn parse_config
  load-watch_turn c raw index cfg h =
      subst
        (λ c'.
          (c'.config ≡ some cfg)
          × (c'.called ≡ c.called)
          × (watch_turn is_object read c' c'.last_index (kv_answer (some raw) index) ≡ c'))
        (sym loaded) (refl, refl, pair_old now index (some raw) (same index))
    where
      now : Center C F
      now = record c { last_index = index; config = some cfg; global = some cfg }

      loaded : (load is_object read c (kv_answer (some raw) index)).0 ≡ now
      loaded = ap (λ x. (store is_object read (record c { last_index = index }) x).0) h

      same : (n : ℕ) → ltb n n ≡ false
      same n = ground arith

  -- A center that was stopped can be set to watching again, but its goroutine ends at once, whatever
  -- changes come, and stopping it again panics.
  pub watch-stop :
      (c c' : Center C F) (answers : List (KvAnswer D E))
      → stop c ≡ some c'
      → let again = (watch c').0 in
        (again.is_watching ≡ true)
        × (watch_loop is_object read again answers ≡ again)
        × (stop again ≡ none)
  unfolding watch stop watch_loop
  watch-stop c c' [] h = ground arith
  watch-stop c c' (a ∷ answers) h = ground arith
