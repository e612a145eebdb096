-- ===== src/Codegen/HttpbookLaws.antt =====
-- Which fields the bodies have, and which routes a book of requests covers.
use goupter.Prelude.{
  ℕ, suc, ◌≡◌, refl, ap, String, true, false, List, [], ◌∷◌, map, string_key, take,
}
use goupter.Codegen.Routes.{FieldInfo}
use goupter.Codegen.Httpbook.{body_line, body_lines}

-- A body for a creation has a line for every field, one for an update those of the first two.
pub body_lines-take :
    (fields : List FieldInfo)
    → (body_lines fields false 0 ≡ map body_line fields)
      × (body_lines fields true 0 ≡ map body_line (take 2 fields))
unfolding body_lines
body_lines-take fields = (unlimited fields 0, limited fields)
  where
    unlimited :
        (fields : List FieldInfo) (count : ℕ) → body_lines fields false count ≡ map body_line fields
    unlimited [] count = refl
    unlimited (f ∷ fields) count =
        ap (λ (l : List String). body_line f ∷ l) (unlimited fields (suc count))

    limited : (fields : List FieldInfo) → body_lines fields true 0 ≡ map body_line (take 2 fields)
    limited [] = refl
    limited (f ∷ []) = refl
    limited (f ∷ f' ∷ fields) = refl
