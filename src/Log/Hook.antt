-- ===== src/Log/Hook.antt =====
-- The hooks of pkg/log/hook.go. What a hook and the wrapped logger do outside is a change of a world
-- `W`, threaded through in the order of the calls. A `HookManager` stands at an address of a store,
-- since the loggers that `With` derives share it; its lock makes `Add` and `Fire` atomic.
use goupter.Prelude.{
  ℕ, suc, ◌≡◌, ◌↔◌, String, Bool, true, false, Option, none, some, List, [], ◌∷◌, ◌++◌, arith, ◌==◌,
  Key, nat_key, string_key, if◌then◌else◌,
}
use goupter.Prelude.Dict.{lookup, insert}
use goupter.Log.Sampler.{Level}

abbrev pub level_eqb : Level → Level → Bool
level_eqb Level.debug_level Level.debug_level = true
level_eqb Level.info_level Level.info_level = true
level_eqb Level.warn_level Level.warn_level = true
level_eqb Level.error_level Level.error_level = true
level_eqb Level.fatal_level Level.fatal_level = true
level_eqb _ _ = false

pub level_eqb_iff : (a b : Level) → (level_eqb a b ≡ true) ↔ (a ≡ b)
level_eqb_iff a b = ground arith

instance abbrev pub level_key : Key Level
level_key = record { same = level_eqb; same_iff = level_eqb_iff }

-- The value of a field is left open.
pub record Field (V : Type 0) : Type 0 where
  pub key : String
  pub value : V

pub record Entry (V : Type 0) : Type 0 where
  pub level : Level
  pub message : String
  pub fields : List (Field V)
  pub time : ℕ
  pub caller : String

unfoldable pub new_entry : {V : Type 0} → Level → String → List (Field V) → Entry V
new_entry level msg fields = record {
  level = level;
  message = msg;
  fields = fields;
  time = 0;
  caller = "";
}

unfoldable pub find_field : {V : Type 0} → List (Field V) → String → Option V
find_field [] key = none
find_field (f ∷ fields) key = if f.key == key then some f.value else find_field fields key

unfoldable pub get_field : {V : Type 0} → Entry V → String → Option V
unfolding find_field
get_field e key = find_field e.fields key

-- `Hook`: its levels, and what `Fire` does to the world with the error that it answers.
pub record Hook (V W E : Type 0) : Type 0 where
  pub levels : List Level
  pub fire : Entry V → W → W × Option E

module _ {V W E : Type 0} where
  unfoldable pub new_func_hook : List Level → (Entry V → W → W × Option E) → Hook V W E
  new_func_hook levels fn = record { levels = levels; fire = fn }

  unfoldable pub new_error_hook : (Entry V → W → W × Option E) → Hook V W E
  new_error_hook fn = record { levels = Level.error_level ∷ Level.fatal_level ∷ []; fire = fn }

  -- `m.hooks[level]`: the empty list for a level with no hook.
  unfoldable pub hooks_of : Level → List (Level × List (Hook V W E)) → List (Hook V W E)
  hooks_of level hooks = elim (lookup level hooks) [ none ↦ [] | some registered ↦ registered ]

  -- The loop of `Add` over the levels of the hook.
  unfoldable pub add_at :
      List Level → Hook V W E → List (Level × List (Hook V W E)) → List (Level × List (Hook V W E))
  unfolding hooks_of
  add_at [] hook hooks = hooks
  add_at (level ∷ levels) hook hooks =
      add_at levels hook (insert level (hooks_of level hooks ++ hook ∷ []) hooks)

-- `HookManager`
pub record HookManager (V W E : Type 0) : Type 0 where
  pub hooks : List (Level × List (Hook V W E))

module _ {V W E : Type 0} where
  unfoldable pub new_hook_manager : HookManager V W E
  new_hook_manager = record { hooks = [] }

  unfoldable pub add : HookManager V W E → Hook V W E → HookManager V W E
  unfolding add_at
  add m hook = record { hooks = add_at hook.levels hook m.hooks }

  -- The loop of `Fire`: the first error ends it.
  unfoldable pub fire_each : List (Hook V W E) → Entry V → W → W × Option E
  fire_each [] entry w = (w, none)
  fire_each (hook ∷ hooks) entry w =
      let (w', err) = hook.fire entry w in
      elim err [ some e ↦ (w', some e) | none ↦ fire_each hooks entry w' ]

  unfoldable pub fire : HookManager V W E → Level → Entry V → W → W × Option E
  unfolding hooks_of fire_each
  fire m level entry w = fire_each (hooks_of level m.hooks) entry w

-- `HookedLogger`: the wrapped logger and the address of its manager.
pub record HookedLogger (L : Type 0) : Type 0 where
  pub logger : L
  pub hooks : ℕ

-- The managers by their addresses, and the next address.
pub record Store (V W E : Type 0) : Type 0 where
  pub managers : List (ℕ × HookManager V W E)
  pub next : ℕ

module _ {V W E : Type 0} where
  unfoldable pub manager_at : Store V W E → ℕ → HookManager V W E
  unfolding new_hook_manager
  manager_at s address = elim (lookup address s.managers) [ none ↦ new_hook_manager | some m ↦ m ]

  module _ {L : Type 0} where
    unfoldable pub new_hooked_logger : L → Store V W E → HookedLogger L × Store V W E
    unfolding new_hook_manager
    new_hooked_logger logger s = (
      record { logger = logger; hooks = s.next },
      record { managers = insert s.next new_hook_manager s.managers; next = suc s.next },
    )

    unfoldable pub add_hook : HookedLogger L → Hook V W E → Store V W E → Store V W E
    unfolding manager_at add
    add_hook l hook s = record s {
      managers = insert l.hooks (add (manager_at s l.hooks) hook) s.managers;
    }

    -- `Debug`, `Info`, `Warn`, `Error` and `Fatal`, one for each level: the hooks run first and their
    -- error is dropped. `write` is the method of the wrapped logger.
    unfoldable pub log_at :
        (L → Level → String → List (Field V) → W → W)
        → HookedLogger L
        → Store V W E
        → Level
        → String
        → List (Field V)
        → W
        → W
    unfolding new_entry fire manager_at
    log_at write l s level msg fields w =
        write l.logger level msg fields
          (fire (manager_at s l.hooks) level (new_entry level msg fields) w).0

-- `With`
unfoldable pub with_fields :
    {V L : Type 0} → (List (Field V) → L → L) → HookedLogger L → List (Field V) → HookedLogger L
with_fields derive l fields = record { logger = derive fields l.logger; hooks = l.hooks }
