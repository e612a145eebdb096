-- ===== src/Prelude/Classes.antt =====
-- Go's `==` on the types that serve as map keys.
use Prim.Native.Nat.{ℕ}
use Prim.Native.String.{String}
use mathlib.Core.Path.{◌≡◌}
use mathlib.Core.Logic.{◌↔◌}
use mathlib.Core.Bool.{Bool, true}
use text.Mathlib.Text
use text.Mathlib.TextEquality.{eq_iff}
use goupter.Prelude.Tests.{nat_eqb, nat_eqb_iff}

-- A type with a test that decides equality.
pub record Key {κ} (K : Type κ) : Type κ where
  pub same : K → K → Bool
  pub same_iff : (j k : K) → (same j k ≡ true) ↔ (j ≡ k)

infix 50 ◌==◌
abbrev pub ◌==◌ {κ} : {K : Type κ} ⦃key : Key K⦄ → K → K → Bool
◌==◌ ⦃key⦄ j k = key.same j k

instance abbrev pub string_key : Key String
string_key = record { same = Text.◌==◌; same_iff = eq_iff }

instance abbrev pub nat_key : Key ℕ
nat_key = record { same = nat_eqb; same_iff = nat_eqb_iff }
