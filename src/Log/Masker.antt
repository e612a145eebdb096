-- ===== src/Log/Masker.antt =====
-- `DefaultMasker` and `MaskedLogger` of pkg/log/masker.go. Texts that are masked are given by their
-- bytes, which is what `len` and the slices of the source count.
use goupter.Prelude.{
  ℕ, zero, suc, ◌+◌, ◌-◌, ◌/◌, ◌%◌, String, Bool, true, false, not, Option, none, some, List, [],
  ◌∷◌, ◌++◌, ◌==◌, string_key, nat_key, ltb, length, take, drop, if◌then◌else◌,
}
use goupter.Prelude.Dict.{lookup, insert}

pub data SensitiveType : Type 0 where
  sensitive_phone : SensitiveType
  sensitive_id_card : SensitiveType
  sensitive_email : SensitiveType
  sensitive_bank_card : SensitiveType
  sensitive_password : SensitiveType
  sensitive_token : SensitiveType
  sensitive_custom : SensitiveType

-- `strings.Repeat`
unfoldable pub repeat : List ℕ → ℕ → List ℕ
repeat mask zero = []
repeat mask (suc n) = mask ++ repeat mask n

unfoldable pub mask_all : List ℕ → List ℕ → List ℕ
unfolding repeat
mask_all mask s = repeat mask (length s)

unfoldable pub mask_phone : List ℕ → List ℕ → List ℕ
unfolding mask_all repeat
mask_phone mask s =
    if not (length s == 11) then mask_all mask s else take 3 s ++ (repeat mask 4 ++ drop 7 s)

unfoldable pub mask_id_card : List ℕ → List ℕ → List ℕ
unfolding mask_all repeat
mask_id_card mask s =
    if ltb (length s) 10
    then mask_all mask s
    else take 6 s ++ (repeat mask (length s - 10) ++ drop (length s - 4) s)

unfoldable pub mask_bank_card : List ℕ → List ℕ → List ℕ
unfolding mask_all repeat
mask_bank_card mask s =
    if ltb (length s) 10
    then mask_all mask s
    else take 6 s ++ (repeat mask (length s - 10) ++ drop (length s - 4) s)

-- `strings.Index(s, "@")`, none for -1.
unfoldable pub index_at : List ℕ → Option ℕ
index_at [] = none
index_at (b ∷ s) =
    let rest = index_at s in
    if b == b'@' then some 0 else elim rest [ none ↦ none | some i ↦ some (suc i) ]

-- `string(s[0])` for a byte: the UTF-8 of the code point with its number.
unfoldable pub of_byte : ℕ → List ℕ
of_byte b = if ltb b 128 then b ∷ [] else (192 + b / 64) ∷ (128 + b % 64) ∷ []

-- The first byte, the rest up to the sign, and from the sign on.
unfoldable pub mask_local : List ℕ → List ℕ → ℕ → List ℕ
unfolding repeat of_byte
mask_local mask [] i = []
mask_local mask (b ∷ s) i = of_byte b ++ (repeat mask (i - 1) ++ drop i (b ∷ s))

unfoldable pub mask_email : List ℕ → List ℕ → List ℕ
unfolding mask_all mask_local index_at
mask_email mask s = elim (index_at s) [
  | none ↦ mask_all mask s
  | some i ↦ if i == 0 then mask_all mask s else mask_local mask s i
]

-- `mask_func` takes the mask character, which is read when a rule runs.
pub record MaskRule : Type 0 where
  pub type : SensitiveType
  pub pattern : String
  pub mask_func : List ℕ → List ℕ → List ℕ

pub record DefaultMasker : Type 0 where
  pub rules : List MaskRule
  pub sensitive_keys : List (String × SensitiveType)
  pub mask_char : List ℕ

unfoldable pub init_rules : List MaskRule
init_rules =
    record { type = sensitive_phone; pattern = "1[3-9]\\d{9}"; mask_func = mask_phone }
    ∷ record {
      type = sensitive_id_card;
      pattern = "\\d{17}[\\dXx]|\\d{15}";
      mask_func = mask_id_card;
    }
    ∷ record {
      type = sensitive_email;
      pattern = "[\\w.-]+@[\\w.-]+\\.\\w+";
      mask_func = mask_email;
    }
    ∷ record { type = sensitive_bank_card; pattern = "\\d{16,19}"; mask_func = mask_bank_card }
    ∷ []

unfoldable pub default_keys : List (String × SensitiveType)
default_keys =
    ("password", sensitive_password)
    ∷ ("passwd", sensitive_password)
    ∷ ("pwd", sensitive_password)
    ∷ ("secret", sensitive_password)
    ∷ ("token", sensitive_token)
    ∷ ("access_token", sensitive_token)
    ∷ ("refresh_token", sensitive_token)
    ∷ ("api_key", sensitive_token)
    ∷ ("apikey", sensitive_token)
    ∷ ("phone", sensitive_phone)
    ∷ ("mobile", sensitive_phone)
    ∷ ("tel", sensitive_phone)
    ∷ ("id_card", sensitive_id_card)
    ∷ ("idcard", sensitive_id_card)
    ∷ ("identity", sensitive_id_card)
    ∷ ("email", sensitive_email)
    ∷ ("mail", sensitive_email)
    ∷ ("bank_card", sensitive_bank_card)
    ∷ ("bankcard", sensitive_bank_card)
    ∷ ("card_no", sensitive_bank_card)
    ∷ []

-- Without options.
unfoldable pub new_default_masker : DefaultMasker
unfolding init_rules default_keys
new_default_masker = record {
  rules = init_rules;
  sensitive_keys = default_keys;
  mask_char = b'*' ∷ [];
}

-- The value of a field: a text, or a value of another type.
pub data Value (V : Type 0) : Type 0 where
  text : List ℕ → Value V
  other : V → Value V

-- `replace_all` is `ReplaceAllStringFunc` of the compiled pattern.
unfoldable pub mask_rules :
    (String → (List ℕ → List ℕ) → List ℕ → List ℕ) → List ℕ → List MaskRule → List ℕ → List ℕ
mask_rules replace_all mask [] s = s
mask_rules replace_all mask (rule ∷ rules) s =
    mask_rules replace_all mask rules (replace_all rule.pattern (rule.mask_func mask) s)

unfoldable pub mask_text :
    (String → (List ℕ → List ℕ) → List ℕ → List ℕ) → DefaultMasker → List ℕ → List ℕ
unfolding mask_rules
mask_text replace_all m s = mask_rules replace_all m.mask_char m.rules s

unfoldable pub mask_as : List ℕ → SensitiveType → List ℕ → List ℕ
unfolding mask_all repeat mask_phone mask_id_card mask_email mask_bank_card
mask_as mask sensitive_password s = repeat mask 8
mask_as mask sensitive_token s = repeat mask 8
mask_as mask sensitive_phone s = mask_phone mask s
mask_as mask sensitive_id_card s = mask_id_card mask s
mask_as mask sensitive_email s = mask_email mask s
mask_as mask sensitive_bank_card s = mask_bank_card mask s
mask_as mask sensitive_custom s = mask_all mask s

unfoldable pub mask_value : {V : Type 0} → List ℕ → SensitiveType → Value V → Value V
unfolding mask_as
mask_value mask type (text s) = text (mask_as mask type s)
mask_value mask type (other v) = other v

-- `to_lower` is `strings.ToLower`.
unfoldable pub mask_field :
    {V : Type 0} → (String → String) → DefaultMasker → String → Value V → Value V
unfolding mask_value
mask_field to_lower m key value = elim (lookup (to_lower key) m.sensitive_keys) [
  | none ↦ value
  | some type ↦ mask_value m.mask_char type value
]

-- `compiles` says whether `regexp.Compile` succeeds; the answer is whether there was an error.
unfoldable pub add_rule :
    (String → Bool) → DefaultMasker → String → (List ℕ → List ℕ) → DefaultMasker × Bool
add_rule compiles m pattern mask_func =
    if compiles pattern
    then (
      record m {
        rules =
            m.rules
            ++ record {
              type = sensitive_custom;
              pattern = pattern;
              mask_func = λ mask s. mask_func s;
            }
              ∷ [];
      },
      false,
    )
    else (m, true)

unfoldable pub add_sensitive_key :
    (String → String) → DefaultMasker → String → SensitiveType → DefaultMasker
add_sensitive_key to_lower m key type = record m {
  sensitive_keys = insert (to_lower key) type m.sensitive_keys;
}

-- `maskFields` of `MaskedLogger` with this masker.
unfoldable pub mask_fields :
    {V : Type 0}
    → (String → String)
    → DefaultMasker
    → List (String × Value V)
    → List (String × Value V)
unfolding mask_field
mask_fields to_lower m [] = []
mask_fields to_lower m ((key, value) ∷ fields) =
    (key, mask_field to_lower m key value) ∷ mask_fields to_lower m fields
