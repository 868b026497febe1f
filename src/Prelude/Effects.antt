-- ===== src/Prelude/Effects.antt =====
-- What a Go function may do: return, return an error, panic; and change a state on the way.
use mathlib.Core.Path.{◌≡◌, refl}
use mathlib.Core.Logic.{◌⊎◌, inl, inr}
use Prim.Native.String.{String}

-- A Go error, by its message.
abbrev pub Error : Type 0
Error = String

-- `(value, error)` with exactly one of the two set.
pub data Result {ℓ} (A : Type ℓ) : Type ℓ where
  ok : A → Result A
  err : Error → Result A

-- Either the value or the error is set.
pub Result-cases {ℓ} :
    {B : Type ℓ} (result : Result B)
    → ((value : B) × (result ≡ ok value)) ⊎ ((message : Error) × (result ≡ err message))
Result-cases (ok value) = inl (value, refl)
Result-cases (err message) = inr (message, refl)

-- The end of a call: a value, a returned error, or a run-time panic.
pub data Outcome {ℓ} (A : Type ℓ) : Type ℓ where
  done : A → Outcome A
  failed : Error → Outcome A
  panicked : Outcome A

-- The three ends of a call.
pub Outcome-cases {ℓ} :
    {A : Type ℓ} (o : Outcome A)
    → ((a : A) × (o ≡ done a)) ⊎ (((e : Error) × (o ≡ failed e)) ⊎ (o ≡ panicked))
Outcome-cases (done a) = inl (a, refl)
Outcome-cases (failed e) = inr (inl (e, refl))
Outcome-cases panicked = inr (inr refl)

-- A call that changes a state of type `S`. What was written before an error stays written.
abbrev pub Action {ℓ} : Type ℓ → Type ℓ → Type ℓ
Action S A = S → Outcome A × S

abbrev pub to_outcome {ℓ} : {A : Type ℓ} → Result A → Outcome A
to_outcome (ok a) = done a
to_outcome (err e) = failed e

module _ {ℓ} {S A : Type ℓ} where
  abbrev pub pure : A → Action S A
  pure a s = (done a, s)

  abbrev pub fail : Error → Action S A
  fail e s = (failed e, s)

  abbrev pub panic : Action S A
  panic s = (panicked, s)

  abbrev pub lift : Result A → Action S A
  lift r s = (to_outcome r, s)

module _ {ℓ} {S A B : Type ℓ} where
  abbrev pub resume : Outcome A → (A → Action S B) → Action S B
  resume (done a) k s = k a s
  resume (failed e) k s = (failed e, s)
  resume panicked k s = (panicked, s)

  -- `if err != nil { return err }` after each call; a panic leaves at once.
  infixl 5 ◌>>=◌ ◌>>◌
  abbrev pub ◌>>=◌ : Action S A → (A → Action S B) → Action S B
  ◌>>=◌ m k s = resume (m s).0 k (m s).1

  abbrev pub ◌>>◌ : Action S A → Action S B → Action S B
  m >> k = m >>= λ _. k
