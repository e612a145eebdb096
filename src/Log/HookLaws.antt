-- ===== src/Log/HookLaws.antt =====
-- Which hooks a record of a level runs, in which order, and that derived loggers share them.
use mathlib.Core.List.{append_assoc, append-nil}
use goupter.Prelude.{◌≡◌, sym, ap, ◌∙◌, List, [], ◌∷◌, ◌++◌, arith, ◌==◌, nat_key, if◌then◌else◌}
use goupter.Prelude.Dict.{lookup, insert, lookup-insert}
use goupter.Log.Sampler.{Level}
use goupter.Log.Hook.{
  Entry, Hook, HookManager, level_eqb_iff, level_key, hooks_of, add_at, new_hook_manager, add,
  fire_each, fire,
}

module _ {V W E : Type 0} where
  -- The hook once for each time that it lists the level.
  unfoldable pub times_at : Level → List Level → Hook V W E → List (Hook V W E)
  times_at level [] hook = []
  times_at level (first ∷ rest) hook =
      let more = times_at level rest hook in if first == level then hook ∷ more else more

  -- The hooks of a level, in the order in which they were added.
  unfoldable pub wanted : Level → List (Hook V W E) → List (Hook V W E)
  unfolding times_at
  wanted level [] = []
  wanted level (hook ∷ hooks) = times_at level hook.levels hook ++ wanted level hooks

  -- The manager after these calls of `Add`.
  unfoldable pub add_all : HookManager V W E → List (Hook V W E) → HookManager V W E
  unfolding add
  add_all m [] = m
  add_all m (hook ∷ hooks) = add_all (add m hook) hooks

  hooks_of-insert :
      (level at : Level) (hs : List (Hook V W E)) (hooks : List (Level × List (Hook V W E)))
      → hooks_of level (insert at hs hooks) ≡ (if at == level then hs else hooks_of level hooks)
  unfolding hooks_of
  hooks_of-insert level at hs hooks = ground (arith, lookup-insert at level hs hooks)

  hooks_of-add_at :
      (level : Level) (levels : List Level) (hook : Hook V W E)
      (hooks : List (Level × List (Hook V W E)))
      → hooks_of level (add_at levels hook hooks)
        ≡ hooks_of level hooks ++ times_at level levels hook
  unfolding add_at times_at
  hooks_of-add_at level [] hook hooks = sym (append-nil _)
  hooks_of-add_at level (at ∷ levels) hook hooks = ground (
    arith,
    level_eqb_iff at level,
    hooks_of-add_at level levels hook (insert at (hooks_of at hooks ++ hook ∷ []) hooks),
    hooks_of-insert level at (hooks_of at hooks ++ hook ∷ []) hooks,
    append_assoc (hooks_of level hooks) (hook ∷ []) (times_at level levels hook),
  )

  hooks_of-add_all :
      (level : Level) (m : HookManager V W E) (hs : List (Hook V W E))
      → hooks_of level (add_all m hs).hooks ≡ hooks_of level m.hooks ++ wanted level hs
  unfolding add_all wanted add
  hooks_of-add_all level m [] = sym (append-nil _)
  hooks_of-add_all level m (hook ∷ hs) =
      hooks_of-add_all level (add m hook) hs
      ∙ (ap (λ (l : List (Hook V W E)). l ++ wanted level hs)
            (hooks_of-add_at level hook.levels hook m.hooks)
          ∙ append_assoc (hooks_of level m.hooks) (times_at level hook.levels hook)
              (wanted level hs))

  -- After hooks are added to a new manager, a record of a level runs exactly the hooks that list the
  -- level, as often as they list it and in the order of their addition, up to the first error.
  pub fire-add_all :
      (hs : List (Hook V W E)) (level : Level) (entry : Entry V) (w : W)
      → fire (add_all new_hook_manager hs) level entry w ≡ fire_each (wanted level hs) entry w
  unfolding fire hooks_of lookup new_hook_manager
  fire-add_all hs level entry w =
      ap (λ (l : List (Hook V W E)). fire_each l entry w)
        (hooks_of-add_all level new_hook_manager hs)
