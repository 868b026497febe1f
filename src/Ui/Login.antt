-- ===== src/Ui/Login.antt =====
-- ui/backend/uiserver/authentication.go and authentication_middleware.go: who is let through.
pub mod Admission
use postee.Prelude.{
  ℕ, [], String, Bool, false, Option, none, some, Result, ok, err, Error, Action, pure, ◌==◌, ◌&&◌,
  not, if◌then◌else◌,
}
use postee.Prelude.Int.{negsuc}
use postee.Prelude.Text.{has_prefix}
use postee.Ui.World.{Session, Cookies, Request, Answer, UiServer, nothing_written, http_error}

module _ (cookies : Cookies) where
  open cookies use {Cookie, get, create, save}

  unfoldable pub get_user_from_request : Request Cookie → Result String
  get_user_from_request r = elim (get r.now r.cookie).1 [
    | some e ↦ err e
    | none ↦ elim (get r.now r.cookie).0.user [ none ↦ ok "" | some user ↦ ok user ]
  ]

  abbrev pub has_user : Result String → Bool
  has_user (err e) = false
  has_user (ok user) = not (user == "")

  -- The handler that stands before every route.
  unfoldable pub authentication_middleware :
      {W : Type 0}
      → (Request Cookie → Action W (Answer Cookie))
      → Request Cookie
      → Action W (Answer Cookie)
  unfolding get_user_from_request
  authentication_middleware next r w =
      if not (has_prefix r.request_uri "/api")
      then next r w
      else if has_prefix r.request_uri "/api/login"
      then next r w
      else if has_user (get_user_from_request r)
      then next r w
      else pure (http_error 401 "Forbidden") w

  -- The session of a request, or a new one where the cookie cannot be read.
  abbrev session_of : ℕ → Cookie → Session
  session_of now cookie = elim (get now cookie).1 [
    | none ↦ (get now cookie).0
    | some e ↦ (create now cookie).0
  ]

  abbrev saved : ℕ → Result Cookie → Answer Cookie
  saved status (err e) = http_error status e
  saved status (ok cookie) = record { statuses = []; body = ""; cookie = some cookie }

  unfoldable pub login : UiServer → Request Cookie → Answer Cookie
  login srv r = elim (session_of r.now r.cookie).user [
    | some user ↦ nothing_written
    | none ↦
        if r.form_value "username" == srv.admusr && r.form_value "password" == srv.admpwd
        then saved 401 (
            save r.now
              (record (session_of r.now r.cookie) { user = some (r.form_value "username") }))
        else http_error 401 "Unauthorized"
  ]

  unfoldable pub logout : Request Cookie → Answer Cookie
  logout r = elim (get r.now r.cookie).1 [
    | some e ↦ http_error 500 e
    | none ↦
        saved 500
          (save r.now (record (get r.now r.cookie).0 { user = some ""; max_age = negsuc 0 }))
  ]
