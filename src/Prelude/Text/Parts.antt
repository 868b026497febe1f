-- ===== src/Prelude/Text/Parts.antt =====
-- `strings.Split` at a separator of one character, and `strings.Join`.
use Prim.Native.Nat.{ℕ}
use Prim.Native.Char.{Char, code}
use Prim.Native.String
use Prim.Native.String.{String}
use mathlib.Core.List.{List, [], ◌∷◌}
use postee.Prelude.Tests.{eqb, if◌then◌else◌}

-- The character in front of the first part.
abbrev extend : Char → List String → List String
extend c [] = String.◌∷◌ c "" ∷ []
extend c (w ∷ ws) = String.◌∷◌ c w ∷ ws

unfoldable pub split : String → ℕ → List String
split String.[] sep = "" ∷ []
split (String.◌∷◌ c s) sep =
    let rest = split s sep in if eqb (code c) sep then "" ∷ rest else extend c rest

unfoldable pub join : List String → String → String
join [] sep = ""
join (x ∷ []) sep = x
join (x ∷ y ∷ rest) sep = String.◌++◌ x (String.◌++◌ sep (join (y ∷ rest) sep))
