-- ===== src/Prelude/Text/Affix.antt =====
-- Prefixes, suffixes, case and replacement: `strings.HasPrefix`, `TrimSuffix`, `ToLower`, ...
use Prim.Native.Nat.{ℕ}
use Prim.Native.Char.{Char, code}
use Prim.Native.String.{String, [], ◌∷◌, ◌++◌, count}
use mathlib.Core.Path.{◌≡◌, refl, ap}
use mathlib.Core.Logic.{◌≢◌}
use mathlib.Core.Bool.{Bool}
use mathlib.Core.Option
use mathlib.Core.Option.{Option, none, some}
use native.Mathlib.Omega.{arith}
use text.Mathlib.Text.{◌==◌}
use text.Mathlib.TextEquality.{eq_iff, Char-path}
use text.Mathlib.TextLemmas.{
  nil-append, cons-append, length-cons, length-append, cons-ne-nil, concat-ne-nil,
  tail-eq_of_cons-eq,
}
use text.Mathlib.TextPositions.{eq_refl}
use postee.Prelude.Tests.{eqb, if◌then◌else◌, is_some}

-- What follows the prefix, if the text has it.
unfoldable pub strip_prefix : String → String → Option String
strip_prefix s [] = some s
strip_prefix [] (c ∷ p) = none
strip_prefix (d ∷ s) (c ∷ p) =
    let rest = strip_prefix s p in if eqb (code d) (code c) then rest else none

-- What precedes the suffix, if the text has it.
unfoldable pub strip_suffix : String → String → Option String
strip_suffix [] p = if "" == p then some "" else none
strip_suffix (c ∷ s) p =
    let rest = Option.map (λ r. c ∷ r) (strip_suffix s p) in if (c ∷ s) == p then some "" else rest

abbrev pub has_prefix : String → String → Bool
has_prefix s p = is_some (strip_prefix s p)

abbrev pub has_suffix : String → String → Bool
has_suffix s p = is_some (strip_suffix s p)

abbrev pub trim_prefix : String → String → String
trim_prefix s p = Option.get_or (strip_prefix s p) s

abbrev pub trim_suffix : String → String → String
trim_suffix s p = Option.get_or (strip_suffix s p) s

-- The character in the second text at the place that the given one has in the first.
unfoldable pub translate : String → String → Char → Char
translate (x ∷ xs) (y ∷ ys) c =
    let rest = translate xs ys c in if eqb (code c) (code x) then y else rest
translate _ _ c = c

unfoldable pub map_text : (Char → Char) → String → String
map_text f [] = []
map_text f (c ∷ s) = f c ∷ map_text f s

-- The letters that Go's unicode.ToLower turns into an ASCII letter: the dotted I and the sign of the
-- kelvin are among them.
abbrev pub upper_letters : String
upper_letters = "ABCDEFGHIJKLMNOPQRSTUVWXYZİK"

abbrev pub lower_letters : String
lower_letters = "abcdefghijklmnopqrstuvwxyzik"

-- The letters that unicode.ToUpper turns into an ASCII letter, with the dotless i and the long s.
abbrev small_letters : String
small_letters = "abcdefghijklmnopqrstuvwxyzıſ"

abbrev capital_letters : String
capital_letters = "ABCDEFGHIJKLMNOPQRSTUVWXYZIS"

-- The other letters stay here, and become letters that are not ASCII there: a comparison of the result
-- with an ASCII text, which is what the program asks of it, is the same.
unfoldable pub to_lower : String → String
unfolding map_text translate
to_lower s = map_text (translate upper_letters lower_letters) s

-- Right for a text whose letters are ASCII, as those of a key of a Jira project are.
unfoldable pub to_upper : String → String
unfolding map_text translate
to_upper s = map_text (translate small_letters capital_letters) s

-- `strings.ReplaceAll` for an old text of one character.
unfoldable pub replace_all : String → ℕ → String → String
replace_all [] old new = []
replace_all (c ∷ s) old new =
    let rest = replace_all s old new in if eqb (code c) old then new ++ rest else c ∷ rest

cons-append-ne_self : (c : Char) (s p : String) → (c ∷ (s ++ p)) ≢ p
cons-append-ne_self c s p e = omega (arith, ap count e, length-cons c (s ++ p), length-append s p)

-- Trimming a suffix that was appended gives the text back.
pub strip_suffix-append : (s p : String) → strip_suffix (s ++ p) p ≡ some s
unfolding strip_suffix
strip_suffix-append [] [] = refl
strip_suffix-append [] (c ∷ p) = rw (nil-append, strip_suffix, eq_refl)
strip_suffix-append (c ∷ s) p =
    rw cons-append
      (ground (arith, strip_suffix-append s p, eq_iff (c ∷ (s ++ p)) p, cons-append-ne_self c s p))

longer-ne-single : (x : Char) (s : String) (d c : Char) → (x ∷ (s ++ (d ∷ []))) ≢ (c ∷ [])
longer-ne-single x s d c e = concat-ne-nil d s (tail-eq_of_cons-eq e)

-- A suffix of one character is the last character.
pub has_suffix-concat :
    (s : String) (c d : Char) → has_suffix (s ++ (d ∷ [])) (c ∷ []) ≡ eqb (code d) (code c)
unfolding strip_suffix
has_suffix-concat [] c d = rw nil-append (
    ground (
      arith,
      eq_iff (d ∷ []) (c ∷ []),
      eq_iff [] (c ∷ []),
      cons-ne-nil c [],
      λ (e : code d ≡ code c). Char-path d c e,
    ))
has_suffix-concat (x ∷ s) c d = rw cons-append (
    ground (
      arith,
      has_suffix-concat s c d,
      eq_iff (x ∷ (s ++ (d ∷ []))) (c ∷ []),
      longer-ne-single x s d c,
    ))

pub map_text-append :
    (f : Char → Char) (s t : String) → map_text f (s ++ t) ≡ map_text f s ++ map_text f t
unfolding map_text
map_text-append f [] t = simp nil-append
map_text-append f (c ∷ s) t = simp (cons-append, map_text-append f s t)
