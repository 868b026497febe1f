-- ===== src/Prelude/Text/SplitJoin.antt =====
-- `strings.Split` gives back what `strings.Join` put together.
use Prim.Native.Nat.{ℕ}
use Prim.Native.Char.{Char, code}
use Prim.Native.String
use Prim.Native.String.{String}
use mathlib.Core.Path.{◌≡◌, refl, ap, ◌∙◌}
use mathlib.Core.Bool.{false}
use mathlib.Core.List.{List, [], ◌∷◌}
use native.Mathlib.Omega.{arith}
use text.Mathlib.TextLemmas.{nil-append, cons-append}
use postee.Prelude.Tests.{eqb}
use postee.Prelude.Lists.{All}
use postee.Prelude.Text.Parts.{split, join}

-- The text has no character of the code.
abbrev pub Lacks : ℕ → String → Type 0
Lacks n String.[] = Unit
Lacks n (String.◌∷◌ c s) = (eqb (code c) n ≡ false) × Lacks n s

split-append :
    (s t : String) (sep : Char)
    → Lacks (code sep) s
    → split (String.◌++◌ s (String.◌∷◌ sep t)) (code sep) ≡ s ∷ split t (code sep)
unfolding split
split-append String.[] t sep h = rw nil-append (ground arith)
split-append (String.◌∷◌ c s) t sep (n, h) =
    rw cons-append (rw n (rw (split-append s t sep h) refl))

split-Lacks : (s : String) (n : ℕ) → Lacks n s → split s n ≡ s ∷ []
unfolding split
split-Lacks String.[] n h = refl
split-Lacks (String.◌∷◌ c s) n (d, h) = rw d (rw (split-Lacks s n h) refl)

pub split-join :
    (w : String) (ws : List String) (sep : Char)
    → All (Lacks (code sep)) (w ∷ ws)
    → split (join (w ∷ ws) (String.◌∷◌ sep "")) (code sep) ≡ w ∷ ws
unfolding join
split-join w [] sep (h, k) = split-Lacks w (code sep) h
split-join w (v ∷ ws) sep (h, k) = rw cons-append (
    rw nil-append (
      split-append w (join (v ∷ ws) (String.◌∷◌ sep "")) sep h
      ∙ ap (λ l. w ∷ l) (split-join v ws sep k)))
