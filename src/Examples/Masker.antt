-- ===== src/Examples/Masker.antt =====
-- Examples about pkg/log/masker.go.
use goupter.Prelude.{ℕ, ◌≡◌, refl, List, [], ◌∷◌, arith}
use goupter.Log.Masker.{
  sensitive_email, sensitive_id_card, sensitive_bank_card, mask_as, mask_phone, repeat, mask_email,
  index_at, mask_local, of_byte,
}
use goupter.Log.MaskerLaws.{
  IsAscii, hide, masked, shown_email, shown_of, mask_as-masked, mask_as_ten_bytes,
}

-- 13800001234
abbrev phone : List ℕ
phone = 49 ∷ 51 ∷ 56 ∷ 48 ∷ 48 ∷ 48 ∷ 48 ∷ 49 ∷ 50 ∷ 51 ∷ 52 ∷ []

phone_masked :
    mask_phone (42 ∷ []) phone ≡ (49 ∷ 51 ∷ 56 ∷ 42 ∷ 42 ∷ 42 ∷ 42 ∷ 49 ∷ 50 ∷ 51 ∷ 52 ∷ [])
unfolding mask_phone repeat
phone_masked = refl

-- bob@x
abbrev address : List ℕ
address = 98 ∷ 111 ∷ 98 ∷ 64 ∷ 120 ∷ []

address_masked : mask_email (42 ∷ []) address ≡ (98 ∷ 42 ∷ 42 ∷ 64 ∷ 120 ∷ [])
unfolding mask_email mask_local index_at of_byte repeat
address_masked = refl

address-IsAscii : IsAscii address
address-IsAscii = ground arith

mask_as-masked_example : mask_as (42 ∷ []) sensitive_email address ≡ 98 ∷ 42 ∷ 42 ∷ 64 ∷ 120 ∷ []
unfolding masked shown_of shown_email hide index_at
mask_as-masked_example = mask_as-masked 42 sensitive_email address address-IsAscii

abbrev ten : List ℕ
ten = 49 ∷ 50 ∷ 51 ∷ 52 ∷ 53 ∷ 54 ∷ 55 ∷ 56 ∷ 57 ∷ 48 ∷ []

mask_as_ten_bytes_example :
    (mask_as (42 ∷ []) sensitive_id_card ten ≡ ten)
    × (mask_as (42 ∷ []) sensitive_bank_card ten ≡ ten)
mask_as_ten_bytes_example = mask_as_ten_bytes (42 ∷ []) ten refl
