-- ===== src/Prelude/Text/Order.antt =====
-- `bytes.Compare` as a strict order: lexicographic by code points, which is the order of the bytes.
use Prim.Native.Char.{code}
use Prim.Native.String.{String, [], ◌∷◌}
use mathlib.Core.Path.{◌≡◌, refl}
use mathlib.Core.Bool.{Bool, true, false}
use native.Mathlib.Omega.{arith}
use text.Mathlib.TextEquality.{Char-path}
use postee.Prelude.Tests.{ltb, eqb, if◌then◌else◌}

unfoldable pub ltb_text : String → String → Bool
ltb_text s [] = false
ltb_text [] (d ∷ t) = true
ltb_text (c ∷ s) (d ∷ t) =
    let rest = ltb_text s t in
    if ltb (code c) (code d) then true else if eqb (code c) (code d) then rest else false

pub ltb_text_trans :
    (a b c : String) → ltb_text a b ≡ true → ltb_text b c ≡ true → ltb_text a c ≡ true
unfolding ltb_text
ltb_text_trans a [] c h k = cc
ltb_text_trans a (y ∷ b) [] h k = cc
ltb_text_trans [] (y ∷ b) (z ∷ c) h k = refl
ltb_text_trans (x ∷ a) (y ∷ b) (z ∷ c) h k = ground (arith, ltb_text_trans a b c)

pub ltb_text_irrefl : (a : String) → ltb_text a a ≡ false
unfolding ltb_text
ltb_text_irrefl [] = refl
ltb_text_irrefl (x ∷ a) = ground (arith, ltb_text_irrefl a)

-- Two texts of which neither is less are equal.
pub ltb_text_connex : (a b : String) → ltb_text a b ≡ false → ltb_text b a ≡ false → a ≡ b
unfolding ltb_text
ltb_text_connex [] [] h k = refl
ltb_text_connex [] (y ∷ b) h k = cc
ltb_text_connex (x ∷ a) [] h k = cc
ltb_text_connex (x ∷ a) (y ∷ b) h k =
    let same : code x ≡ code y = ground arith in
    cc (Char-path x y same, ltb_text_connex a b (ground (arith, same)) (ground (arith, same)))
