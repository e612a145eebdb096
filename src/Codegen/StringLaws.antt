-- ===== src/Codegen/StringLaws.antt =====
-- Laws of the functions of `strings` on joined texts.
use Prim.Native.Char.{Char, code}
use text.Mathlib.TextLemmas.{cons-append, nil-append, append-ne-nil_of_right_ne-nil}
use text.Mathlib.TextEquality.{eq_iff}
use goupter.Prelude.{
  ℕ, ◌+◌, append, ◌≡◌, ◌≢◌, refl, sym, ap, ◌∙◌, String, Bool, true, false, List, [], ◌∷◌, ◌++◌,
  ◌==◌, string_key, nat_key, arith, Bool-cases, inl, inr, ◌&&◌, if◌then◌else◌,
}
use goupter.Codegen.Strings.{cons_first, split_at, space_right, is_space, contains_text, count_of}

cons_first-append :
    (c : Char) (first more : List String)
    → first ≢ []
    → cons_first c (first ++ more) ≡ cons_first c first ++ more
unfolding cons_first
cons_first-append c [] more h = absurd (h refl)
cons_first-append c (a ∷ first) more h = refl

-- One turn of `split_at`.
abbrev piece : Bool → Char → List String → List String
piece b c rest = if b then "" ∷ rest else cons_first c rest

piece-ne-nil : (b : Bool) (c : Char) (rest : List String) → piece b c rest ≢ []
unfolding cons_first
piece-ne-nil true c rest h = cc
piece-ne-nil false c [] h = cc
piece-ne-nil false c (first ∷ rest) h = cc

piece-append :
    (b : Bool) (c : Char) (first more : List String)
    → first ≢ []
    → piece b c (first ++ more) ≡ piece b c first ++ more
piece-append true c first more h = refl
piece-append false c first more h = cons_first-append c first more h

split_at-ne-nil : (sep : ℕ) (s : String) → split_at sep s ≢ []
unfolding split_at
split_at-ne-nil sep String.[] h = cc
split_at-ne-nil sep (String.◌∷◌ c s) h = piece-ne-nil (code c == sep) c (split_at sep s) h

-- A text with the separator in the middle.
pub split_at-append :
    (sep : ℕ) (c : Char) (s t : String)
    → (code c == sep) ≡ true
    → split_at sep (append s (String.◌∷◌ c t)) ≡ split_at sep s ++ split_at sep t
unfolding split_at
split_at-append sep c String.[] t h = rw (nil-append (String.◌∷◌ c t)) (rw h refl)
split_at-append sep c (String.◌∷◌ d s) t h =
    ap (split_at sep) (cons-append d s (String.◌∷◌ c t))
    ∙ (ap (piece (code d == sep) d) (split_at-append sep c s t h)
        ∙ piece-append (code d == sep) d (split_at sep s) (split_at sep t) (split_at-ne-nil sep s))

pub split_at-none : (sep : ℕ) (s : String) → count_of sep s ≡ 0 → split_at sep s ≡ s ∷ []
unfolding split_at count_of cons_first
split_at-none sep String.[] h = refl
split_at-none sep (String.◌∷◌ c s) h = elim (Bool-cases (code c == sep)) [
  | inl same ↦ absurd (ground (arith, same, h))
  | inr other ↦ rw other (ap (cons_first c) (split_at-none sep s (ground (arith, other, h))))
]

pub contains_text-append :
    (s t part : String) → contains_text t part ≡ true → contains_text (append s t) part ≡ true
unfolding contains_text
contains_text-append String.[] t part h = rw (nil-append t) h
contains_text-append (String.◌∷◌ c s) t part h =
    ap (λ (u : String). contains_text u part) (cons-append c s t)
    ∙ ground (arith, contains_text-append s t part h)

pub space_right-append :
    (s t : String) → space_right t ≡ t → t ≢ "" → space_right (append s t) ≡ append s t
unfolding space_right
space_right-append String.[] t h filled = rw (nil-append t) h
space_right-append (String.◌∷◌ c s) t h filled =
    ap space_right (cons-append c s t)
    ∙ (rw (space_right-append s t h filled) (kept (is_space (code c)) (append s t) not_empty)
        ∙ sym (cons-append c s t))
  where
    not_empty : (append s t == "") ≡ false
    not_empty = elim (Bool-cases (append s t == "")) [
      | inl e ↦ absurd (append-ne-nil_of_right_ne-nil s filled ((eq_iff (append s t) "").0 e))
      | inr e ↦ e
    ]

    kept :
        (b : Bool) (u : String)
        → (u == "") ≡ false
        → (if b && (u == "") then "" else String.◌∷◌ c u) ≡ String.◌∷◌ c u
    kept true u e = rw e refl
    kept false u e = refl

pub count_of-append :
    (sep : ℕ) (s t : String) → count_of sep (append s t) ≡ count_of sep s + count_of sep t
unfolding count_of
count_of-append sep String.[] t = ap (count_of sep) (nil-append t) ∙ omega arith
count_of-append sep (String.◌∷◌ c s) t =
    ap (count_of sep) (cons-append c s t) ∙ ground (arith, count_of-append sep s t)
