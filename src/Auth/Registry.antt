-- ===== src/Auth/Registry.antt =====
-- The registry of pkg/auth/plugin.go. A plugin is its name, with what `Init` and `Authenticator` do on
-- the state `S` of the program; `C` is a configuration, `E` an error and `A` an authenticator.
use goupter.Prelude.{
  append, String, Option, none, some, List, ◌==◌, ◌⊎◌, inl, inr, string_key, if◌then◌else◌,
}
use goupter.Prelude.Dict.{lookup, insert}

pub record Plugin (C E A S : Type 0) : Type 0 where
  pub name : String
  pub init : C → S → S × Option E
  pub authenticator : S → A

pub data RegistryError (E : Type 0) : Type 0 where
  plugin_not_found : String → RegistryError E
  init_failed : String → E → RegistryError E

module _ {C E A S : Type 0} where
  -- The text of a panic, or the registry after it.
  unfoldable pub register :
      Plugin C E A S → List (String × Plugin C E A S) → String ⊎ List (String × Plugin C E A S)
  register plugin registry =
      if plugin.name == ""
      then inl "auth: plugin name cannot be empty"
      else (elim (lookup plugin.name registry) [
        | some other ↦ inl (append "auth: plugin " (append plugin.name " already registered"))
        | none ↦ inr (insert plugin.name plugin registry)
      ])

  after_init : Plugin C E A S → String → S × Option E → S × (RegistryError E ⊎ A)
  after_init plugin name (s, some e) = (s, inl (init_failed name e))
  after_init plugin name (s, none) = (s, inr (plugin.authenticator s))

  unfoldable pub new_authenticator :
      List (String × Plugin C E A S) → String → C → S → S × (RegistryError E ⊎ A)
  unfolding after_init
  new_authenticator registry name config s = elim (lookup name registry) [
    | none ↦ (s, inl (plugin_not_found name))
    | some plugin ↦ after_init plugin name (plugin.init config s)
  ]
