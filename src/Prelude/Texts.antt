-- ===== src/Prelude/Texts.antt =====
-- Texts under the names that do not clash with those of lists.
use Prim.Native.String.{String, ◌++◌}

-- `s + t`
abbrev pub append : String → String → String
append s t = s ++ t
