-- ===== src/Cache/Errors.antt =====
-- pkg/cache/errors.go, and the errors that the caches return.
use goupter.Prelude.{
  String, ◌≡◌, Bool, true, false, ◌||◌, Option, none, some, ◌==◌, string_key, arith, if◌then◌else◌,
}

-- A Go `error` value. `err_not_found` is the sentinel `ErrNotFound`, `not_found` a
-- `*NotFoundError`; `wrap text e` is an error with its own text that unwraps to `e` (`%w`), and
-- `other text` any error that wraps nothing.
pub data Error : Type 0 where
  not_found : String → Error
  err_not_found : Error
  wrap : String → Error → Error
  other : String → Error

-- `errors.As(err, &notFoundErr)`: some error of the chain is a `*NotFoundError`.
abbrev pub as_not_found : Error → Bool
as_not_found (not_found key) = true
as_not_found err_not_found = false
as_not_found (wrap text e) = as_not_found e
as_not_found (other text) = false

-- `errors.Is(err, ErrNotFound)`: the sentinel is in the chain.
abbrev pub is_err_not_found : Error → Bool
is_err_not_found (not_found key) = false
is_err_not_found err_not_found = true
is_err_not_found (wrap text e) = is_err_not_found e
is_err_not_found (other text) = false

-- `err.Error() == "redis: nil"`. The texts of the first two begin with "cache: ".
abbrev pub is_redis_nil : Error → Bool
is_redis_nil (not_found key) = false
is_redis_nil err_not_found = false
is_redis_nil (wrap text e) = text == "redis: nil"
is_redis_nil (other text) = text == "redis: nil"

unfoldable pub is_not_found : Option Error → Bool
is_not_found none = false
is_not_found (some e) =
    if as_not_found e then true else if is_err_not_found e then true else is_redis_nil e

-- `Chain e t`: unwrapping `e`, no times or more, gives `t`.
pub data Chain : Error → Error → Type 0 where
  self : {e : Error} → Chain e e
  under : {e t : Error} (text : String) → Chain e t → Chain (wrap text e) t

as_not_found-Chain : {e t : Error} → Chain e t → as_not_found t ≡ true → as_not_found e ≡ true
as_not_found-Chain self h = h
as_not_found-Chain (under text c) h = as_not_found-Chain c h

is_err_not_found-Chain :
    {e t : Error} → Chain e t → is_err_not_found t ≡ true → is_err_not_found e ≡ true
is_err_not_found-Chain self h = h
is_err_not_found-Chain (under text c) h = is_err_not_found-Chain c h

-- However often a missing-key error, of either kind, is wrapped, `is_not_found` recognises it.
pub is_not_found-Chain :
    (e t : Error)
    → Chain e t
    → (as_not_found t || is_err_not_found t) ≡ true
    → is_not_found (some e) ≡ true
unfolding is_not_found
is_not_found-Chain e t c h = ground (arith, as_not_found-Chain c, is_err_not_found-Chain c)
