-- ===== src/Web.antt =====
-- webserver: the handlers of HTTP requests, and the API key that guards the reload.
pub mod Start
pub mod Answers
mod Tests
use postee.Prelude.{
  ℕ, String, Bool, true, false, Option, none, some, List, [], ◌∷◌, ◌++◌, Result, ok, err, Error,
  ◌==◌, if◌then◌else◌, ◌≡◌, ◌≢◌, ◌⊎◌, inl, inr, refl, arith, eq_iff, Bool-cases,
}

-- What a handler does: the answers that it writes, by their status, and whether the request went on
-- to what the handler guards.
pub record Served : Type 0 where
  pub statuses : List ℕ
  pub body : String
  pub reached : Bool

-- What is handed to the router.
pub data Handed : Type 0 where
  nothing : Handed
  queued : String → Handed
  routed : (route text : String) → Handed

-- An error or an empty key is answered, and the call goes on.
abbrev pub key_error : Result String → List ℕ
key_error (err e) = 401 ∷ []
key_error (ok key) = if key == "" then 401 ∷ [] else []

-- The value of the key; `GetApiKey` gives the empty text beside an error.
abbrev pub correct_key : Result String → String
correct_key (err e) = ""
correct_key (ok key) = key

unfoldable pub with_api_key : Result String → String → Served
with_api_key stored key =
    if key == correct_key stored
    then record { statuses = key_error stored; body = ""; reached = true }
    else record { statuses = key_error stored ++ (401 ∷ []); body = ""; reached = false }

unfoldable pub scan_handler : Result String → ℕ × Handed
scan_handler (err e) = (500, nothing)
scan_handler (ok body) = (200, queued body)

unfoldable pub tenant_handler : Option String → Result String → ℕ × Handed
tenant_handler none body = (400, nothing)
tenant_handler (some route) (err e) = if route == "" then (400, nothing) else (500, nothing)
tenant_handler (some route) (ok body) =
    if route == "" then (400, nothing) else (200, routed route body)

unfoldable pub ping_handler : ℕ × String
ping_handler = (200, "\"Postee alive!\"")

-- With a key that is not empty, a reload is reached exactly by the requests that name that key, and
-- every other request is answered with 401 alone.
pub with_api_key-guards :
    (stored key : String)
    → stored ≢ ""
    → (((with_api_key (ok stored) key).reached ≡ true) × (key ≡ stored))
      ⊎ (((with_api_key (ok stored) key).reached ≡ false)
          × (key ≢ stored)
          × ((with_api_key (ok stored) key).statuses ≡ 401 ∷ []))
unfolding with_api_key
with_api_key-guards stored key n = elim (Bool-cases (key == stored)) [
  | inl e ↦ inl (rw e refl, ground (arith, e, eq_iff key stored))
  | inr e ↦ inr (
    rw e refl,
    (λ f. ground (arith, e, f, eq_iff key stored)),
    ground (arith, e, n, eq_iff stored ""),
  )
]

-- Where the key cannot be read, a request with no key is answered with 401 and reaches the reload.
pub with_api_key-unread :
    (stored : Result String)
    → correct_key stored ≡ ""
    → ((with_api_key stored "").reached ≡ true) × ((with_api_key stored "").statuses ≡ 401 ∷ [])
unfolding with_api_key
with_api_key-unread (err e) h = (refl, refl)
with_api_key-unread (ok key) h = rw h (refl, refl)
