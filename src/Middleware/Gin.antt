-- ===== src/Middleware/Gin.antt =====
-- What a middleware of pkg/server/middleware does to `*gin.Context`: the list of its calls, in order. `I`
-- is what `SetAuthInfo` stores.
use goupter.Prelude.{String, Bool, true, false, List, [], ◌∷◌}
use goupter.Prelude.Int.{ℤ}

pub data GinCall (I : Type 0) : Type 0 where
  header : String → String → GinCall I
  -- The status, and the code and the message of the body.
  abort_json : ℤ → ℤ → String → GinCall I
  abort_status : ℤ → GinCall I
  set_info : I → GinCall I
  next : GinCall I

-- The rest of the chain runs: `Next` runs it, and gin itself does when a handler returns that has
-- not aborted.
unfoldable pub goes_on : {I : Type 0} → List (GinCall I) → Bool
goes_on [] = true
goes_on (header k v ∷ calls) = goes_on calls
goes_on (abort_json s c m ∷ calls) = false
goes_on (abort_status s ∷ calls) = false
goes_on (set_info i ∷ calls) = goes_on calls
goes_on (next ∷ calls) = true
