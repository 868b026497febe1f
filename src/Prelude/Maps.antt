-- ===== src/Prelude/Maps.antt =====
-- Go maps with text keys, as association lists. The program reads them by key; where it goes through
-- one, the order is that of the list, one of the orders that Go may take.
use postee.Prelude.Tests.{if◌then◌else◌}
use Prim.Native.String.{String}
use mathlib.Core.Path.{◌≡◌, refl}
use mathlib.Core.Option
use mathlib.Core.Option.{Option, none, some}
use mathlib.Core.List.{List, [], ◌∷◌}
use native.Mathlib.Omega.{arith}
use text.Mathlib.Text.{◌==◌}
use text.Mathlib.TextEquality.{eq_iff}

abbrev pub Dict {ℓ} : Type ℓ → Type ℓ
Dict V = List (String × V)

module _ {ℓ} {V : Type ℓ} where
  -- v, ok := m[k]
  unfoldable pub lookup : String → Dict V → Option V
  lookup key [] = none
  lookup key ((name, value) ∷ entries) = if name == key then some value else lookup key entries

  -- m[k] = v
  unfoldable pub insert : String → V → Dict V → Dict V
  insert key value [] = (key, value) ∷ []
  insert key value ((name, old) ∷ entries) =
      let others = insert key value entries in
      if name == key then (key, value) ∷ entries else (name, old) ∷ others

  pub lookup-insert :
      (written asked : String) (value : V) (entries : Dict V)
      → lookup asked (insert written value entries)
        ≡ (if written == asked then some value else lookup asked entries)
  unfolding lookup insert
  lookup-insert written asked value [] = refl
  lookup-insert written asked value ((name, old) ∷ entries) =
      let later = lookup-insert written asked value entries in
      ground (arith, later, eq_iff name asked, eq_iff name written, eq_iff written asked)

-- m[k] for a map of texts: "" where the key is missing.
unfoldable pub value_of : String → Dict String → String
unfolding lookup
value_of k m = Option.get_or (lookup k m) ""
