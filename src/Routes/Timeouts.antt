-- ===== src/Routes/Timeouts.antt =====
-- routes/aggrtimeout.go: what a timeout says, for each order in which Go may go through the units.
use Prim.Native.Char.{Char, code}
use Prim.Native.String
use Prim.Native.String.{char_at}
use text.Mathlib.TextLemmas.{nil-append, cons-append, concat-ne-nil}
use postee.Prelude.{
  ℕ, ◌*◌, ◌≤◌, String, true, false, Option, none, List, [], ◌∷◌, ◌≡◌, ◌≢◌, ◌∙◌, refl, ap, arith,
  inl, inr, Bool-cases, ◌==◌, eq_iff, eqb, All, Any, here, there, Error, subst,
}
use postee.Prelude.Int.{ℤ, pos, int_max, mul_int, wrap_int}
use postee.Prelude.Text.{
  has_suffix, trim_suffix, strip_suffix-append, has_suffix-concat, map_text, map_text-append,
  translate, upper_letters, lower_letters, to_lower, replace_all, atoi, itoa_nat, atoi-itoa_nat,
  AllDigits, itoa_nat-AllDigits,
}
use postee.Routes.{times, convert, parse_timeouts}

-- A list with the entries of the table and no others.
pub record IsOrder (order : List (String × ℕ)) : Type 0 where
  pub known : All (λ e. Any (λ t. t ≡ e) times) order
  pub every : All (λ t. Any (λ e. e ≡ t) order) times

abbrev Read : Type 0
Read = ℤ × Option Error

abbrev read_as : (v unit : String) → ℕ → Read
read_as v unit k = (mul_int (atoi (trim_suffix v unit)).0 k, (atoi (trim_suffix v unit)).1)

-- The loop stops at the only entry whose unit the text ends with.
convert-found :
    (v unit : String) (k : ℕ) (order : List (String × ℕ))
    → has_suffix (to_lower v) unit ≡ true
    → All (λ e. has_suffix (to_lower v) e.0 ≡ true → e ≡ (unit, k)) order
    → Any (λ e. e ≡ (unit, k)) order
    → convert order v ≡ read_as v unit k
unfolding convert
convert-found v unit k [] h only found = elim found [ ]
convert-found v unit k ((name, size) ∷ order) h (only, rest) found =
    elim (Bool-cases (has_suffix (to_lower v) name)) [
      | inl e ↦ rw e (ap (λ t. read_as v t.0 t.1) (only e))
      | inr e ↦ elim found [
        | here p ↦ absurd (ground (arith, e, h, ap (λ t. has_suffix (to_lower v) t.0) p))
        | there q ↦ rw e (convert-found v unit k order h rest q)
      ]
    ]

replace_all-digits :
    (s : String) (u : Char)
    → AllDigits s
    → code u ≢ 32
    → replace_all (String.◌++◌ s (String.◌∷◌ u String.[])) b' ' ""
      ≡ String.◌++◌ s (String.◌∷◌ u String.[])
unfolding replace_all
replace_all-digits String.[] u d n =
    let other : eqb (code u) 32 ≡ false = ground (arith, n) in
    rw (nil-append, replace_all, other) refl
replace_all-digits (String.◌∷◌ c s) u (low, high, d) n =
    let other : eqb (code c) 32 ≡ false = ground (arith, low) in
    rw (cons-append, replace_all, other) (ap (λ t. String.◌∷◌ c t) (replace_all-digits s u d n))

abbrev lower : Char → Char
lower c = translate upper_letters lower_letters c

has_suffix-unit :
    (s : String) (u c : Char)
    → has_suffix (to_lower (String.◌++◌ s (String.◌∷◌ u String.[]))) (String.◌∷◌ c String.[])
      ≡ eqb (code (lower u)) (code c)
unfolding to_lower map_text
has_suffix-unit s u c =
    ap (λ t. has_suffix t (String.◌∷◌ c String.[]))
      (map_text-append lower s (String.◌∷◌ u String.[]))
    ∙ has_suffix-concat (map_text lower s) c (lower u)

-- A unit after digits: nothing is taken out of the text, and no other unit of the table ends it.
record IsUnit (s unit : String) (k : ℕ) : Type 0 where
  spaceless : replace_all (String.◌++◌ s unit) b' ' "" ≡ String.◌++◌ s unit
  not_empty : (String.◌++◌ s unit == "") ≡ false
  ends : has_suffix (to_lower (String.◌++◌ s unit)) unit ≡ true
  alone : All (λ t. has_suffix (to_lower (String.◌++◌ s unit)) t.0 ≡ true → t ≡ (unit, k)) times

differs :
    (s : String) (u c : Char) (t e : String × ℕ)
    → eqb (code (lower u)) (code c) ≡ false
    → has_suffix (to_lower (String.◌++◌ s (String.◌∷◌ u String.[]))) (String.◌∷◌ c String.[]) ≡ true
    → t ≡ e
differs s u c t e n h = absurd (ground (arith, n, h, has_suffix-unit s u c))

AllDigits-IsUnit :
    (s : String) (u : Char) (k : ℕ)
    → AllDigits s
    → code u ≢ 32
    → eqb (code (lower u)) (code u) ≡ true
    → All
        (λ t.
          has_suffix (to_lower (String.◌++◌ s (String.◌∷◌ u String.[]))) t.0 ≡ true
          → t ≡ (String.◌∷◌ u String.[], k))
        times
    → IsUnit s (String.◌∷◌ u String.[]) k
AllDigits-IsUnit s u k d n same apart = record {
  spaceless = replace_all-digits s u d n;
  not_empty = ground (arith, eq_iff (String.◌++◌ s (String.◌∷◌ u String.[])) "", concat-ne-nil u s);
  ends = has_suffix-unit s u u ∙ same;
  alone = apart;
}

abbrev second : Char
second = char_at "s" 0

abbrev minute : Char
minute = char_at "m" 0

abbrev hour : Char
hour = char_at "h" 0

abbrev day : Char
day = char_at "d" 0

second-IsUnit : (s : String) → AllDigits s → IsUnit s "s" 1
unfolding translate
second-IsUnit s d =
    AllDigits-IsUnit s second 1 d (λ e. cc e) refl
      ((
        (λ h. refl),
        (
          differs s second minute _ _ refl,
          (differs s second hour _ _ refl, (differs s second day _ _ refl, tt)),
        ),
      ))

minute-IsUnit : (s : String) → AllDigits s → IsUnit s "m" 60
unfolding translate
minute-IsUnit s d =
    AllDigits-IsUnit s minute 60 d (λ e. cc e) refl
      ((
        differs s minute second _ _ refl,
        ((λ h. refl), (differs s minute hour _ _ refl, (differs s minute day _ _ refl, tt))),
      ))

hour-IsUnit : (s : String) → AllDigits s → IsUnit s "h" 3600
unfolding translate
hour-IsUnit s d =
    AllDigits-IsUnit s hour 3600 d (λ e. cc e) refl
      ((
        differs s hour second _ _ refl,
        (differs s hour minute _ _ refl, ((λ h. refl), (differs s hour day _ _ refl, tt))),
      ))

day-IsUnit : (s : String) → AllDigits s → IsUnit s "d" 86400
unfolding translate
day-IsUnit s d =
    AllDigits-IsUnit s day 86400 d (λ e. cc e) refl
      ((
        differs s day second _ _ refl,
        (differs s day minute _ _ refl, (differs s day hour _ _ refl, ((λ h. refl), tt))),
      ))

units-IsUnit :
    (s unit : String) (k : ℕ) → AllDigits s → Any (λ t. t ≡ (unit, k)) times → IsUnit s unit k
units-IsUnit s unit k d (here p) = subst (λ e. IsUnit s e.0 e.1) p (second-IsUnit s d)
units-IsUnit s unit k d (there (here p)) = subst (λ e. IsUnit s e.0 e.1) p (minute-IsUnit s d)
units-IsUnit s unit k d (there (there (here p))) = subst (λ e. IsUnit s e.0 e.1) p (hour-IsUnit s d)
units-IsUnit s unit k d (there (there (there (here p)))) =
    subst (λ e. IsUnit s e.0 e.1) p (day-IsUnit s d)
units-IsUnit s unit k d (there (there (there (there p)))) = elim p [ ]

module _ {A : Type 0} (Q : A → Type 0) where
  All-at : (e : A) (xs : List A) → All Q xs → Any (λ t. t ≡ e) xs → Q e
  All-at e [] h m = elim m [ ]
  All-at e (x ∷ xs) (q, h) (here p) = subst Q p q
  All-at e (x ∷ xs) (q, h) (there m) = All-at e xs h m

  All-among : (ts xs : List A) → All Q ts → All (λ x. Any (λ t. t ≡ x) ts) xs → All Q xs
  All-among ts [] h k = tt
  All-among ts (x ∷ xs) h (m, k) = (All-at x ts h m, All-among ts xs h k)

wrap_int_small : (m : ℕ) → m ≤ int_max → wrap_int (pos m) ≡ pos m
unfolding wrap_int
wrap_int_small m h = ground arith

mul_int_small : (n k : ℕ) → n * k ≤ int_max → mul_int (pos n) k ≡ pos (n * k)
unfolding mul_int
mul_int_small n k h = wrap_int_small (n * k) h

-- A number with a unit is read as that many seconds, in whichever order Go goes through the units;
-- where the number and the seconds are within an int.
pub parse_timeouts-itoa_nat :
    (order : List (String × ℕ)) (unit : String) (k n : ℕ)
    → IsOrder order
    → Any (λ t. t ≡ (unit, k)) times
    → n ≤ int_max
    → n * k ≤ int_max
    → parse_timeouts order (String.◌++◌ (itoa_nat n) unit) ≡ (pos (n * k), none)
unfolding parse_timeouts
parse_timeouts-itoa_nat order unit k n is_order among small fits =
    let u = units-IsUnit (itoa_nat n) unit k (itoa_nat-AllDigits n) among in
    rw (u.spaceless, u.not_empty)
      (convert-found (String.◌++◌ (itoa_nat n) unit) unit k order u.ends
          (All-among
            (λ t. has_suffix (to_lower (String.◌++◌ (itoa_nat n) unit)) t.0 ≡ true → t ≡ (unit, k))
            times order u.alone is_order.known)
          (All-at (λ t. Any (λ e. e ≡ t) order) (unit, k) times is_order.every among)
        ∙ rw (strip_suffix-append (itoa_nat n) unit, atoi-itoa_nat n small)
            (ap (λ (t : ℤ). (t, none)) (mul_int_small n k fits)))
