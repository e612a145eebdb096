-- ===== src/Log/MaskerLaws.antt =====
-- What the masks of pkg/log/masker.go keep and hide.
use mathlib.Core.Path.{fun_ext}
use goupter.Prelude.{
  ℕ, zero, suc, ◌+◌, ◌-◌, ◌<◌, ◌≤◌, ◌≡◌, refl, ap, ◌∙◌, Bool, true, false, some, List, [], ◌∷◌,
  ◌++◌, ◌==◌, ◌||◌, string_key, nat_key, ltb, leb, All, length, take, drop, sym, Option, none,
  Bool-cases, if◌then◌else◌, arith, Option-cases, inl, inr,
}
use goupter.Log.Masker.{
  SensitiveType, sensitive_phone, sensitive_id_card, sensitive_email, sensitive_bank_card,
  sensitive_password, sensitive_token, sensitive_custom, repeat, mask_all, mask_phone, mask_id_card,
  mask_bank_card, index_at, of_byte, mask_local, mask_email, mask_as,
}

take-drop : (n : ℕ) (s : List ℕ) → take n s ++ drop n s ≡ s
take-drop zero s = refl
take-drop (suc n) [] = refl
take-drop (suc n) (b ∷ s) = ap (λ (l : List ℕ). b ∷ l) (take-drop n s)

index_at-lt : (s : List ℕ) (i : ℕ) → index_at s ≡ some i → i < length s
unfolding index_at
index_at-lt [] i h = ground arith
index_at-lt (b ∷ s) i h = elim (Option-cases (index_at s)) [
  | inl e ↦ ground (arith, e)
  | inr (j, e) ↦ ground (arith, e, index_at-lt s j e)
]

-- A text of plain ASCII.
abbrev pub IsAscii : List ℕ → Type 0
IsAscii s = All (λ b. b < 128) s

-- The text with the mask character in the place of every byte but those that are shown.
unfoldable pub hide : ℕ → (ℕ → Bool) → List ℕ → List ℕ
hide m shown [] = []
hide m shown (b ∷ s) = (if shown 0 then b else m) ∷ hide m (λ i. shown (suc i)) s

hide_all : (m : ℕ) (s : List ℕ) → repeat (m ∷ []) (length s) ≡ hide m (λ i. false) s
unfolding hide repeat
hide_all m [] = refl
hide_all m (b ∷ s) = ap (λ (l : List ℕ). m ∷ l) (hide_all m s)

show_all : (m : ℕ) (shown : ℕ → Bool) (s : List ℕ) → ((i : ℕ) → shown i ≡ true) → s ≡ hide m shown s
unfolding hide
show_all m shown [] h = refl
show_all m shown (b ∷ s) h =
    rw (h 0) (ap (λ (l : List ℕ). b ∷ l) (show_all m (λ i. shown (suc i)) s (λ i. h (suc i))))

-- The bytes before the first of two places and from the second on.
abbrev pub outside : ℕ → ℕ → ℕ → Bool
outside a b i = ltb i a || leb b i

outside-suc : (a b i : ℕ) → outside (suc a) (suc b) (suc i) ≡ outside a b i
outside-suc a b i = ground arith

outside_zero : (b i : ℕ) → outside 0 (suc b) (suc i) ≡ outside 0 b i
outside_zero b i = ground arith

hidden_0 : (b : ℕ) → outside 0 (suc b) 0 ≡ false
hidden_0 b = ground arith

shown_0 : (a b : ℕ) → outside (suc a) b 0 ≡ true
shown_0 a b = ground arith

hide_middle :
    (m a n b : ℕ) (s : List ℕ)
    → a + n ≡ b
    → b ≤ length s
    → take a s ++ (repeat (m ∷ []) n ++ drop b s) ≡ hide m (outside a b) s
unfolding hide repeat
hide_middle m zero zero zero s e h = show_all m (outside 0 0) s (λ i. ground arith)
hide_middle m zero zero (suc b) s e h = absurd (omega arith)
hide_middle m zero (suc n) zero s e h = absurd (omega arith)
hide_middle m zero (suc n) (suc b) [] e h = absurd (omega arith)
hide_middle m zero (suc n) (suc b) (x ∷ s) e h =
    ap (λ (l : List ℕ). m ∷ l)
      (hide_middle m zero n b s (omega arith) (omega arith)
        ∙ ap (λ (shown : ℕ → Bool). hide m shown s) (sym (fun_ext (outside_zero b))))
    ∙ ap (λ (c : Bool). (if c then x else m) ∷ hide m (λ i. outside 0 (suc b) (suc i)) s)
        (sym (hidden_0 b))
hide_middle m (suc a) n zero s e h = absurd (omega arith)
hide_middle m (suc a) n (suc b) [] e h = absurd (omega arith)
hide_middle m (suc a) n (suc b) (x ∷ s) e h =
    ap (λ (l : List ℕ). x ∷ l)
      (hide_middle m a n b s (omega arith) (omega arith)
        ∙ ap (λ (shown : ℕ → Bool). hide m shown s) (sym (fun_ext (outside-suc a b))))
    ∙ ap (λ (c : Bool). (if c then x else m) ∷ hide m (λ i. outside (suc a) (suc b) (suc i)) s)
        (sym (shown_0 a (suc b)))

-- Which bytes a mask shows: none, or those outside of some range.
pub data Shown : Type 0 where
  nothing : Shown
  but : ℕ → ℕ → Shown

unfoldable pub masked : ℕ → Shown → List ℕ → List ℕ
unfolding hide
masked m nothing s = hide m (λ i. false) s
masked m (but a b) s = hide m (outside a b) s

-- Of an address, its first byte and what begins at the sign, unless the sign is the first.
unfoldable pub shown_email : Option ℕ → Shown
shown_email none = nothing
shown_email (some zero) = nothing
shown_email (some (suc i)) = but 1 (suc i)

-- Of a phone number of eleven bytes, the first three and the last four; of cards of at least ten bytes, the
-- first six and the last four; of anything else, nothing.
unfoldable pub shown_of : SensitiveType → List ℕ → Shown
unfolding shown_email
shown_of sensitive_phone s = if length s == 11 then but 3 7 else nothing
shown_of sensitive_id_card s = if leb 10 (length s) then but 6 (length s - 4) else nothing
shown_of sensitive_bank_card s = if leb 10 (length s) then but 6 (length s - 4) else nothing
shown_of sensitive_email s = shown_email (index_at s)
shown_of _ s = nothing

hide-mask_all : (m : ℕ) (s : List ℕ) → mask_all (m ∷ []) s ≡ masked m nothing s
unfolding mask_all masked
hide-mask_all m s = hide_all m s

masked_phone :
    (m : ℕ) (s : List ℕ) → mask_phone (m ∷ []) s ≡ masked m (shown_of sensitive_phone s) s
unfolding mask_phone shown_of
masked_phone m s = elim (Bool-cases (length s == 11)) [
  | inr e ↦ rw e (hide-mask_all m s)
  | inl e ↦ rw e (unfold masked in hide_middle m 3 4 7 s refl (ground arith))
]

masked_card :
    (m : ℕ) (s : List ℕ)
    → (if ltb (length s) 10
        then mask_all (m ∷ []) s
        else take 6 s ++ (repeat (m ∷ []) (length s - 10) ++ drop (length s - 4) s))
      ≡ masked m (if leb 10 (length s) then but 6 (length s - 4) else nothing) s
masked_card m s = elim (Bool-cases (ltb (length s) 10)) [
  | inl e ↦ rw (e, long e) (hide-mask_all m s)
  | inr e ↦
      rw (e, short e)
        (unfold masked in
          hide_middle m 6 (length s - 10) (length s - 4) s (ground arith) (ground arith))
]
  where
    long : ltb (length s) 10 ≡ true → leb 10 (length s) ≡ false
    long e = ground arith

    short : ltb (length s) 10 ≡ false → leb 10 (length s) ≡ true
    short e = ground arith

masked_local :
    (m i : ℕ) (s : List ℕ)
    → suc i < length s
    → IsAscii s
    → mask_local (m ∷ []) s (suc i) ≡ masked m (but 1 (suc i)) s
unfolding mask_local of_byte masked
masked_local m i [] p h = absurd (omega arith)
masked_local m i (b ∷ s) p h =
    rw (single b h.0, before i) (hide_middle m 1 i (suc i) (b ∷ s) (omega arith) (omega arith))
  where
    single : (b : ℕ) → b < 128 → ltb b 128 ≡ true
    single b h = ground arith

    before : (i : ℕ) → suc i - 1 ≡ i
    before i = omega arith

masked_email :
    (m : ℕ) (s : List ℕ)
    → IsAscii s
    → mask_email (m ∷ []) s ≡ masked m (shown_of sensitive_email s) s
unfolding mask_email shown_of shown_email masked
masked_email m s h = at (index_at s) refl
  where
    not_first : (i : ℕ) → (suc i == 0) ≡ false
    not_first i = ground arith

    at :
        (found : Option ℕ)
        → index_at s ≡ found
        → (elim found [
          | none ↦ mask_all (m ∷ []) s
          | some i ↦ if i == 0 then mask_all (m ∷ []) s else mask_local (m ∷ []) s i
        ])
          ≡ masked m (shown_email found) s
    at none e = hide-mask_all m s
    at (some zero) e = hide-mask_all m s
    at (some (suc i)) e = rw (not_first i) (masked_local m i s (index_at-lt s (suc i) e) h)

-- The types whose mask does not show the length.
abbrev pub is_secret : SensitiveType → Bool
is_secret sensitive_password = true
is_secret sensitive_token = true
is_secret _ = false

-- With a mask character of one byte, of an ASCII text of a sensitive field: a password or a token is
-- replaced by eight mask characters, so that not even its length is shown; of any other, every byte is
-- replaced by the mask character but, of a phone number of eleven bytes, the first three and the last
-- four, of an identity or bank card of at least ten bytes, the first six and the last four, and of an
-- address with its first sign not at the start, its first byte and what begins at the sign.
pub mask_as-masked :
    (m : ℕ) (type : SensitiveType) (s : List ℕ)
    → IsAscii s
    → mask_as (m ∷ []) type s ≡ (
        if is_secret type then m ∷ m ∷ m ∷ m ∷ m ∷ m ∷ m ∷ m ∷ [] else masked m (shown_of type s) s)
unfolding mask_as
mask_as-masked m sensitive_phone s h = masked_phone m s
mask_as-masked m sensitive_id_card s h = unfold mask_id_card shown_of in masked_card m s
mask_as-masked m sensitive_email s h = masked_email m s h
mask_as-masked m sensitive_bank_card s h = unfold mask_bank_card shown_of in masked_card m s
mask_as-masked m sensitive_password s h = unfold repeat in refl
mask_as-masked m sensitive_token s h = unfold repeat in refl
mask_as-masked m sensitive_custom s h = unfold shown_of in hide-mask_all m s

-- A value of ten bytes in a field for an identity card or a bank card is not masked at all, whatever
-- the mask character.
pub mask_as_ten_bytes :
    (mask s : List ℕ)
    → length s ≡ 10
    → (mask_as mask sensitive_id_card s ≡ s) × (mask_as mask sensitive_bank_card s ≡ s)
unfolding mask_as mask_id_card mask_bank_card repeat
mask_as_ten_bytes mask s e = (shown, shown)
  where
    shown :
        (if ltb (length s) 10
          then mask_all mask s
          else take 6 s ++ (repeat mask (length s - 10) ++ drop (length s - 4) s))
        ≡ s
    shown = rw e (take-drop 6 s)
