-- ===== src/Ui/Login/Admission.antt =====
-- ui/backend/uiserver/authentication.go: who a cookie lets through after a login and a logout.
use postee.Prelude.{
  ℕ, ◌+◌, ◌≤◌, ◌<◌, leb, leb→le, String, true, false, none, some, ok, Action, done, ◌==◌, ◌&&◌, ◌≡◌,
  ◌≢◌, ◌⊎◌, inl, inr, refl, ◌∙◌, ap, sym, arith, eq_iff, Bool-cases, Option-cases, Result-cases,
}
use mathlib.Core.Option
use postee.Prelude.Int.{negsuc}
use postee.Prelude.Text.{has_prefix}
use postee.Ui.World.{Session, Cookies, CookiesLaws, Request, Answer, UiServer, http_error}
use postee.Ui.Login.{
  get_user_from_request, has_user, authentication_middleware, session_of, login, logout,
}

module _ {cookies : Cookies} (laws : CookiesLaws cookies) where
  open cookies use {Cookie, oldest, get, save}

  user_of_saved :
      (t : ℕ) (s : Session) (user : String) (c : Cookie) (r : Request Cookie)
      → save t s ≡ ok c
      → s.user ≡ some user
      → r.cookie ≡ c
      → r.now ≤ t + oldest
      → get_user_from_request cookies r ≡ ok user
  unfolding get_user_from_request
  user_of_saved t s user c r e u same fresh =
      let read : (get r.now r.cookie).1 ≡ none =
        ap (λ x. (get r.now x).1) same ∙ laws.get-save-error t r.now s c e fresh in
      let found : (get r.now r.cookie).0.user ≡ some user =
        ap (λ x. (get r.now x).0.user) same ∙ laws.get-save-user t r.now s c e fresh ∙ u in
      rw (read, get_user_from_request, found) refl

  old-refused :
      (t : ℕ) (s : Session) (c : Cookie) (r : Request Cookie)
      → save t s ≡ ok c
      → r.cookie ≡ c
      → t + oldest < r.now
      → has_user cookies (get_user_from_request cookies r) ≡ false
  unfolding get_user_from_request
  old-refused t s c r e same old = elim (Option-cases (get r.now r.cookie).1) [
    | inr (x, f) ↦ rw (f, get_user_from_request) refl
    | inl f ↦
        absurd (laws.get-save-old t r.now s c e old (sym (ap (λ x. (get r.now x).1) same) ∙ f))
  ]

  abbrev ended_session : Request Cookie → Session
  ended_session r = record (get r.now r.cookie).0 { user = some ""; max_age = negsuc 0 }

  not_empty : (user : String) → user ≢ "" → has_user cookies (ok user) ≡ true
  not_empty user h = ground (arith, h, eq_iff user "")

  -- A saved session without the name of a user is refused, whatever its cookie's age.
  saved-refused :
      (t : ℕ) (s : Session) (c : Cookie) (r : Request Cookie)
      → save t s ≡ ok c
      → s.user ≡ some ""
      → r.cookie ≡ c
      → has_user cookies (get_user_from_request cookies r) ≡ false
  saved-refused t s c r e u same = elim (Bool-cases (leb r.now (t + oldest))) [
    | inl h ↦ rw (user_of_saved t s "" c r e u same (leb→le r.now (t + oldest) h)) refl
    | inr h ↦ old-refused t s c r e same (ground (arith, h))
  ]

  logout-refused :
      (out r : Request Cookie) (c : Cookie)
      → (logout cookies out).cookie ≡ some c
      → r.cookie ≡ c
      → has_user cookies (get_user_from_request cookies r) ≡ false
  unfolding logout
  logout-refused out r c given same = elim (Option-cases (get out.now out.cookie).1) [
    | inr (x, e) ↦ absurd (ground (arith, rw (e, logout) at given))
    | inl e ↦ elim (Result-cases (save out.now (ended_session out))) [
      | inr (x, f) ↦ absurd (ground (arith, rw (e, logout, f) at given))
      | inl (c', f) ↦
          let one : some c' ≡ some c = rw (e, logout, f) at given in
          saved-refused out.now (ended_session out) c' r f refl
            (same ∙ sym (ap (λ o. Option.get_or o c) one))
    ]
  ]

  module _ (W : Type 0) where
    -- A request with this cookie goes on to what the middleware stands before, up to a time.
    abbrev pub Admitted : Cookie → (till : ℕ) → Type 0
    Admitted c till =
        (next : Request Cookie → Action W (Answer Cookie)) (r : Request Cookie) (w : W)
        → r.cookie ≡ c
        → r.now ≤ till
        → authentication_middleware cookies next r w ≡ next r w

    Admitted-user :
        (c : Cookie) (till : ℕ) (user : String)
        → ((r : Request Cookie)
            → r.cookie ≡ c
            → r.now ≤ till
            → get_user_from_request cookies r ≡ ok user)
        → user ≢ ""
        → Admitted c till
    unfolding authentication_middleware
    Admitted-user c till user read h next r w same fresh =
        let known = read r same fresh in
        let there = not_empty user h in rw (known, there) (ground arith)

    abbrev admin_session : Request Cookie → Session
    admin_session r = record (session_of cookies r.now r.cookie) {
      user = some (r.form_value "username");
    }

    -- Where the administrator has a name, either a login gives out no cookie, or the name and the password
    -- of the request are those of the administrator, and every request with the cookie that is given out
    -- is let through as long as the cookie is not older than the store reads one.
    pub login-Admitted :
        (srv : UiServer) (r : Request Cookie)
        → srv.admusr ≢ ""
        → ((login cookies srv r).cookie ≡ none)
          ⊎ ((c : Cookie) × ((login cookies srv r).cookie ≡ some c)
              × (r.form_value "username" ≡ srv.admusr)
              × (r.form_value "password" ≡ srv.admpwd)
              × Admitted c (r.now + oldest))
    unfolding login
    login-Admitted srv r h = elim (Option-cases (session_of cookies r.now r.cookie).user) [
      | inr (user, e) ↦ inl (rw (e, login) refl)
      | inl e ↦
          elim (Bool-cases
            (r.form_value "username" == srv.admusr && r.form_value "password" == srv.admpwd)) [
              | inr wrong ↦ inl (rw (e, login, wrong) refl)
              | inl right ↦ elim (Result-cases (save r.now (admin_session r))) [
                | inr (x, f) ↦ inl (rw (e, login, right, f) refl)
                | inl (c, f) ↦
                    let name : r.form_value "username" ≡ srv.admusr =
                      ground (arith, right, eq_iff (r.form_value "username") srv.admusr) in
                    inr (
                      c,
                      rw (e, login, right, f) refl,
                      name,
                      ground (arith, right, eq_iff (r.form_value "password") srv.admpwd),
                      Admitted-user c (r.now + oldest) srv.admusr
                          (λ r' same fresh.
                            user_of_saved r.now (admin_session r) srv.admusr c r' f (ap some name)
                              same fresh)
                          h,
                    )
              ]
            ]
    ]

    -- A request whose target begins with /api, and not with /api/login, is refused with 401 and changes
    -- nothing if it comes with the cookie that a logout gave out, whatever the age of that cookie and
    -- whatever handler stands behind.
    pub authentication_middleware-logout :
        (out r : Request Cookie) (c : Cookie)
        → (logout cookies out).cookie ≡ some c
        → r.cookie ≡ c
        → has_prefix r.request_uri "/api" ≡ true
        → has_prefix r.request_uri "/api/login" ≡ false
        → (next : Request Cookie → Action W (Answer Cookie)) (w : W)
        → authentication_middleware cookies next r w ≡ (done (http_error 401 "Forbidden"), w)
    unfolding logout authentication_middleware
    authentication_middleware-logout out r c given same api other next w =
        let refused : has_user cookies (get_user_from_request cookies r) ≡ false =
          logout-refused out r c given same in
        rw (api, other, refused) refl
