-- ===== src/Log/Named.antt =====
-- The named loggers of pkg/log/named.go. The registry is one map under a lock, and each of the two
-- locked sections of `Named` is one step: another goroutine may come between them.
use goupter.Prelude.{append, String, none, some, List, [], ◌∷◌, string_key}
use goupter.Prelude.Dict.{lookup, insert}

-- `NamedLogger`
pub record NamedLogger (L : Type 0) : Type 0 where
  pub logger : L
  pub name : String

-- The methods `With` and `WithContext` of the wrapped logger, and `String(key, value)`.
module _ {L F : Type 0} (derive : List F → L → L) (text_field : String → String → F) where
  unfoldable pub new_named_logger : String → L → NamedLogger L
  new_named_logger name logger = record {
    logger = derive (text_field "logger" name ∷ []) logger;
    name = name;
  }

  -- `(*NamedLogger).Named`
  unfoldable pub child : NamedLogger L → String → NamedLogger L
  child l name =
      let child_name = append l.name (append "." name) in
      record { logger = derive (text_field "logger" child_name ∷ []) l.logger; name = child_name }

  -- The second locked section of `Named`, which looks again. `base` is `Default()`.
  unfoldable pub create_named :
      L → String → List (String × NamedLogger L) → NamedLogger L × List (String × NamedLogger L)
  unfolding new_named_logger
  create_named base name loggers = elim (lookup name loggers) [
    | some logger ↦ (logger, loggers)
    | none ↦ let logger = new_named_logger name base in (logger, insert name logger loggers)
  ]

  -- `Named`: `seen` is the map at the first section and `loggers` the map at the second.
  unfoldable pub named :
      L
      → String
      → List (String × NamedLogger L)
      → List (String × NamedLogger L)
      → NamedLogger L × List (String × NamedLogger L)
  unfolding create_named
  named base name seen loggers = elim (lookup name seen) [
    | some logger ↦ (logger, loggers)
    | none ↦ create_named base name loggers
  ]

unfoldable pub with_fields :
    {L F : Type 0} → (List F → L → L) → NamedLogger L → List F → NamedLogger L
with_fields derive l fields = record l { logger = derive fields l.logger }

unfoldable pub register_named :
    {L : Type 0}
    → String
    → NamedLogger L
    → List (String × NamedLogger L)
    → List (String × NamedLogger L)
register_named name logger loggers = insert name logger loggers
