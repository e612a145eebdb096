-- ===== src/Config/Tests.antt =====
-- What single tests of pkg/config/validator.go decide, and how a row of them is read.
use text.Mathlib.Text.{starts_with}
use goupter.Prelude.{
  String, ◌≡◌, ◌≢◌, refl, sym, ◌∙◌, ◌↔◌, ◌⊎◌, inl, inr, Bool, true, false, not, ◌&&◌, ◌||◌, List,
  [], ◌∷◌, ◌++◌, ◌==◌, string_key, arith, All, Bool-cases, Option-cases,
}
use mathlib.Core.Bool.{false≢true}
use goupter.Prelude.Int.{ℤ, pos, ◌≤ℤ◌, ◌<ℤ◌, ltb_ℤ}
use goupter.Config.Values.{Std, ValidationError, contains_string, reported}
use goupter.Config.Validator.{outside, negative, is_empty, bad_duration}
use goupter.Config.IsValid.{Among, IsPort, IsDuration}

-- Equivalences, one for each test of a row.
pub also : {A B P Q : Type 0} → (A ↔ P) → (B ↔ Q) → (A × B) ↔ (P × Q)
also p q = (λ (a, b). (p.0 a, q.0 b), λ (a, b). (p.1 a, q.1 b))

pub nothing : Unit {0} ↔ Unit {0}
nothing = (λ t. t, λ t. t)

pub through : {A B C : Type 0} → (A ↔ B) → (B ↔ C) → A ↔ C
through p q = (λ a. q.0 (p.0 a), λ c. p.1 (q.1 c))

abbrev Passes : {F : Type 0} → List (Bool × ValidationError F) → Type 0
Passes checks = All (λ check. check.0 ≡ false) checks

pub reported-Passes :
    {F : Type 0} (checks : List (Bool × ValidationError F)) → (reported checks ≡ []) ↔ Passes checks
unfolding reported
reported-Passes [] = (λ h. tt, λ h. refl)
reported-Passes ((true, e) ∷ checks) = ground arith
reported-Passes ((false, e) ∷ checks) = ground (arith, reported-Passes checks)

pub is_text : (s t : String) → ((s == t) ≡ false) ↔ (s ≢ t)
is_text s t = ground (arith, string_key.same_iff s t)

pub port : (n : ℤ) → (outside (pos 0) (pos 65535) n ≡ false) ↔ IsPort n
port n = ground arith

pub db_index : (n : ℤ) → (outside (pos 0) (pos 15) n ≡ false) ↔ ((pos 0 ≤ℤ n) × (n ≤ℤ pos 15))
db_index n = ground arith

pub natural : (n : ℤ) → (negative n ≡ false) ↔ (pos 0 ≤ℤ n)
natural n = ground arith

pub at_least : (low n : ℤ) → (ltb_ℤ n low ≡ false) ↔ (low ≤ℤ n)
at_least low n = ground arith

contains_string-Among :
    (s : String) (slice : List String) → Among s slice → contains_string slice s ≡ true
unfolding contains_string
contains_string-Among s _ (Among.here item slice e) = rw ((string_key.same_iff item s).1 e) refl
contains_string-Among s _ (Among.there item slice h) =
    ground (arith, contains_string-Among s slice h)

listed_of_contained :
    (slice : List String) (s : String) → contains_string slice s ≡ true → Among s slice
unfolding contains_string
listed_of_contained [] s h = absurd (false≢true h)
listed_of_contained (item ∷ slice) s h = elim (Bool-cases (item == s)) [
  | inl e ↦ Among.here item slice ((string_key.same_iff item s).0 e)
  | inr e ↦ Among.there item slice (listed_of_contained slice s (ground (arith, h, e)))
]

contains_string_iff :
    (slice : List String) (s : String) → (contains_string slice s ≡ true) ↔ Among s slice
contains_string_iff slice s = (listed_of_contained slice s, contains_string-Among s slice)

pub chosen :
    (slice : List String) (s : String) → (not (contains_string slice s) ≡ false) ↔ Among s slice
chosen slice s = ground (arith, contains_string_iff slice s)

pub blank_or_chosen :
    (slice : List String) (s : String)
    → ((not (s == "") && not (contains_string slice s)) ≡ false) ↔ ((s ≡ "") ⊎ Among s slice)
blank_or_chosen slice s = ground (arith, string_key.same_iff s "", contains_string_iff slice s)

pub duration : (std : Std) (s : String) → (bad_duration std s ≡ false) ↔ IsDuration std s
duration std s = elim (Option-cases (std.parse_duration s)) [
  | inl e ↦ ground (arith, e, string_key.same_iff s "")
  | inr (d, e) ↦ ((λ h. inr (d, e)), (λ h. ground (arith, e)))
]

pub idle :
    (m n : ℤ)
    → ((ltb_ℤ (pos 0) m && ltb_ℤ (pos 0) n && ltb_ℤ n m) ≡ false)
      ↔ (pos 0 <ℤ m → pos 0 <ℤ n → m ≤ℤ n)
idle m n = ground arith

same : (A : Type 0) → A ↔ A
same A = (λ a. a, λ a. a)

pub when_mode :
    (mode name : String) (b : Bool) (P : Type 0)
    → ((b ≡ false) ↔ P)
    → ((mode == name && b) ≡ false) ↔ (mode ≡ name → P)
when_mode mode name b P h = elim (Bool-cases (mode == name)) [
  | inl e ↦
      through (rw e (same _)) (through h (λ p q. p, λ f. f ((string_key.same_iff mode name).0 e)))
  | inr e ↦ (
    (λ q r. absurd (false≢true (sym e ∙ (string_key.same_iff mode name).1 r))),
    (λ f. ground (arith, e)),
  )
]

pub some_text : (texts : List String) → (is_empty texts ≡ false) ↔ (texts ≢ [])
some_text [] = (λ h. absurd (false≢true (sym h)), λ h. absurd (h refl))
some_text (a ∷ rest) = ground arith

pub nats_url :
    (url : String)
    → ((not (url == "") && (not (starts_with url "nats://") && not (starts_with url "tls://")))
        ≡ false)
      ↔ ((url ≡ "") ⊎ ((starts_with url "nats://" ≡ true) ⊎ (starts_with url "tls://" ≡ true)))
nats_url url = ground (arith, string_key.same_iff url "")

pub enabled : (on b : Bool) (P : Type 0) → ((b ≡ false) ↔ P) → ((on && b) ≡ false) ↔ (on ≡ true → P)
enabled true b P h = through h (λ p q. p, λ f. f refl)
enabled false b P h = (λ q r. absurd (false≢true r), λ f. refl)

pub neither : (a b : Bool) → ((a || b) ≡ false) ↔ ((a ≡ false) × (b ≡ false))
neither a b = ground arith

empty_both : {A : Type 0} (xs ys : List A) → (xs ++ ys ≡ []) ↔ ((xs ≡ []) × (ys ≡ []))
empty_both [] ys = (λ h. (refl, h), λ h. h.1)
empty_both (x ∷ xs) ys = ground arith

pub only : {A P : Type 0} → (A ↔ P) → A ↔ (P × Unit {0})
only p = (λ a. (p.0 a, tt), λ q. p.1 q.0)

pub joined :
    {A : Type 0} {P Q : Type 0} (xs ys : List A)
    → ((xs ≡ []) ↔ P)
    → ((ys ≡ []) ↔ Q)
    → (xs ++ ys ≡ []) ↔ (P × Q)
joined xs ys p q = through (empty_both xs ys) (also p q)
