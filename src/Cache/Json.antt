-- ===== src/Cache/Json.antt =====
-- `encoding/json`, which pkg/cache calls and which is not part of the repository, as a parameter.
use goupter.Prelude.{ℕ, ◌≡◌, refl, ◌⊎◌, inl, inr, List, Option}
use goupter.Prelude.Int.{ℤ}
use goupter.Cache.Errors.{Error}

pub data Marshalled : Type 0 where
  ok : List ℕ → Marshalled
  err : Error → Marshalled

-- `Value` is a Go value behind an `interface{}`, or the variable that a destination points to.
pub record Json : Type 1 where
  pub Value : Type 0
  -- A variable of type `interface{}` that was never assigned.
  pub nil : Value
  pub marshal : Value → Marshalled
  -- The destination after the call, and the error: a failed call may have written to it.
  pub unmarshal : List ℕ → Value → Value × Option Error
  -- The same two at `int64`, where the code drops the error.
  pub marshal_int : ℤ → List ℕ
  pub unmarshal_int : List ℕ → ℤ → ℤ

pub Marshalled-cases :
    (r : Marshalled) → ((bytes : List ℕ) × (r ≡ ok bytes)) ⊎ ((e : Error) × (r ≡ err e))
Marshalled-cases (ok bytes) = inl (bytes, refl)
Marshalled-cases (err e) = inr (e, refl)
