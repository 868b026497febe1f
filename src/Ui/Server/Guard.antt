-- ===== src/Ui/Server/Guard.antt =====
-- Which requests reach the handlers of the server.
use postee.Prelude.{String, true, false, List, [], ◌∷◌, All, ◌≡◌, ◌⊎◌, inl, inr, refl, ◌∙◌, ap}
use postee.Prelude.Text.{has_prefix}
use postee.Ui.World.{Request, Answer, UiServer}
use postee.Ui.Login.{authentication_middleware, has_user, get_user_from_request}
use postee.Ui.Server.{UiServices, UiWorld, Endpoint, Route, routes, dispatch, serve, serve_all}

module _ (services : UiServices) (web_local_path : String) (srv : UiServer) where
  open services use {cookies}
  open cookies use {Cookie}

  module _ (match : List Route → Request Cookie → Answer Cookie ⊎ Endpoint) where
    -- The target of the request begins with /api, and not with /api/login, and its session has no user.
    pub record IsForeign (r : Request Cookie) : Type 0 where
      pub api : has_prefix r.request_uri "/api" ≡ true
      pub no_login : has_prefix r.request_uri "/api/login" ≡ false
      pub no_user : has_user cookies (get_user_from_request cookies r) ≡ false

    dispatch-foreign :
        (m : Answer Cookie ⊎ Endpoint) (r : Request Cookie) (w : UiWorld services)
        → IsForeign r
        → (dispatch services web_local_path srv match m r w).1 ≡ w
    unfolding authentication_middleware
    dispatch-foreign (inl a) r w h = refl
    dispatch-foreign (inr e) r w h = rw (h.api, h.no_login, h.no_user) refl

    -- However many requests come without a session, with targets that begin with /api and not with
    -- /api/login: they change neither the files, nor what is stored, nor send a test.
    pub serve_all-foreign :
        (rs : List (Request Cookie)) (w : UiWorld services)
        → All IsForeign rs
        → serve_all services web_local_path srv match rs w ≡ w
    unfolding serve_all serve
    serve_all-foreign [] w h = refl
    serve_all-foreign (r ∷ rs) w (h, hs) =
        ap (serve_all services web_local_path srv match rs)
          (dispatch-foreign (match routes r) r w h)
        ∙ serve_all-foreign rs w hs
