-- ===== src/Geometry.antt =====
-- pkg/model/geometry.go: a geometry is its text; `X` is the type of other values of the database.
use goupter.Prelude.{
  String, ◌≡◌, Bool, true, ◌↔◌, ◌⊎◌, inl, inr, ◌==◌, string_key, if◌then◌else◌, arith,
}

pub data DriverValue (X : Type 0) : Type 0 where
  nil : DriverValue X
  -- A `[]byte`, given as the text that it converts to.
  bytes : String → DriverValue X
  text : String → DriverValue X
  other : X → DriverValue X

-- The geometry after `Scan`, or the value whose type is not scanned, which leaves it as it was.
unfoldable pub scan : {X : Type 0} → DriverValue X → X ⊎ String
scan DriverValue.nil = inr ""
scan (DriverValue.bytes v) = inr v
scan (DriverValue.text v) = inr v
scan (DriverValue.other x) = inl x

unfoldable pub value : {X : Type 0} → String → DriverValue X
value g = if g == "" then DriverValue.nil else DriverValue.text g

unfoldable pub is_empty : String → Bool
is_empty g = g == ""

-- A geometry that is stored and read back is the same, also the empty one, which is stored as a null; and
-- what is stored is a null exactly if the geometry is empty.
pub scan-value :
    (X : Type 0) (g : String)
    → (scan (value {X = X} g) ≡ inr g) × ((value {X = X} g ≡ DriverValue.nil) ↔ (is_empty g ≡ true))
unfolding scan value is_empty
scan-value X g = ground (arith, string_key.same_iff g "")
