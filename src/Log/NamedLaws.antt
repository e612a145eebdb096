-- ===== src/Log/NamedLaws.antt =====
-- Every goroutine that asks for a name is given the same logger.
use goupter.Prelude.{◌≡◌, String, some, List, arith, string_key, Option-cases, inl, inr}
use text.Mathlib.TextEquality.{eq_iff}
use goupter.Prelude.Dict.{lookup, lookup-insert, lookup-insert_self}
use goupter.Log.Named.{NamedLogger, new_named_logger, create_named, named}

-- The loggers of one map are those of a later one, under the same names.
abbrev pub IsKept :
    {L : Type 0} → List (String × NamedLogger L) → List (String × NamedLogger L) → Type 0
IsKept {L} seen loggers =
    (name : String) (l : NamedLogger L) → lookup name seen ≡ some l → lookup name loggers ≡ some l

module _ {L F : Type 0} (derive : List F → L → L) (text_field : String → String → F) where
  create_named-IsKept :
      (base : L) (name other : String) (l : NamedLogger L) (loggers : List (String × NamedLogger L))
      → lookup other loggers ≡ some l
      → lookup other (create_named derive text_field base name loggers).1 ≡ some l
  unfolding create_named
  create_named-IsKept base name other l loggers h = ground (
    arith,
    eq_iff name other,
    lookup-insert name other (new_named_logger derive text_field name base) loggers,
  )

  create_named-found :
      (base : L) (name : String) (loggers : List (String × NamedLogger L))
      → lookup name (create_named derive text_field base name loggers).1
        ≡ some (create_named derive text_field base name loggers).0
  unfolding create_named
  create_named-found base name loggers =
      ground (arith, lookup-insert_self name (new_named_logger derive text_field name base) loggers)

  create_named-known :
      (base : L) (name : String) (l : NamedLogger L) (loggers : List (String × NamedLogger L))
      → lookup name loggers ≡ some l
      → (create_named derive text_field base name loggers).0 ≡ l
  unfolding create_named
  create_named-known base name l loggers h = ground arith

  -- A call leaves its logger in the map under its name, and all that was there before.
  pub named-IsKept :
      (base : L) (name : String) (seen loggers : List (String × NamedLogger L))
      → IsKept seen loggers
      → (lookup name (named derive text_field base name seen loggers).1
          ≡ some (named derive text_field base name seen loggers).0)
        × IsKept loggers (named derive text_field base name seen loggers).1
  unfolding named
  named-IsKept base name seen loggers k = elim (Option-cases (lookup name seen)) [
    | inl e ↦
        rw (e, named)
          (
            create_named-found base name loggers,
            λ other l h. create_named-IsKept base name other l loggers h,
          )
    | inr (l, e) ↦ rw (e, named) (k name l e, λ other l h. h)
  ]

  -- Where the map has a logger for the name, every call gives that one.
  named-known :
      (base : L) (name : String) (seen loggers : List (String × NamedLogger L)) (l : NamedLogger L)
      → IsKept seen loggers
      → lookup name loggers ≡ some l
      → (named derive text_field base name seen loggers).0 ≡ l
  unfolding named
  named-known base name seen loggers l k h = elim (Option-cases (lookup name seen)) [
    | inl e ↦ rw (e, named) (create_named-known base name l loggers h)
    | inr (l', e) ↦ rw (e, named) (cc (k name l' e))
  ]

  -- Two calls of `Named` for one name give the same logger, whatever the default loggers are, at
  -- whatever earlier moment each looked at the map, and whatever the calls between them added.
  pub named_agree :
      (base base' : L) (name : String) (seen loggers seen' loggers' : List (String × NamedLogger L))
      → IsKept seen loggers
      → IsKept (named derive text_field base name seen loggers).1 loggers'
      → IsKept seen' loggers'
      → (named derive text_field base' name seen' loggers').0
        ≡ (named derive text_field base name seen loggers).0
  named_agree base base' name seen loggers seen' loggers' k between k' =
      named-known base' name seen' loggers' _ k'
        (between name _ (named-IsKept base name seen loggers k).0)
