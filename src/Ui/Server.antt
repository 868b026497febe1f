-- ===== src/Ui/Server.antt =====
-- ui/backend/uiserver/server.go, testplg.go and httpserver.go: the routes of the server, the test of an
-- output's settings, and the files of the page.
pub mod Guard
use postee.Prelude.{
  ℕ, String, Option, none, some, List, [], ◌∷◌, Result, ok, err, Error, Outcome, done, failed,
  panicked, Action, Dict, ◌⊎◌, inl, inr,
}
use Prim.Native.String.{◌++◌}
use postee.Prelude.Int.{ℤ}
use postee.Db.Bolt.{Bolt}
use postee.Ui.World.{Cookies, Disk, Request, Answer, UiServer, nothing_written, answer, http_error}
use postee.Ui.Login.{authentication_middleware, login, logout}
use postee.Ui.Config.{ConfigServices, World, get_config, update_config}
use postee.Ui.Stats.{plgn_stats}

-- What `os.Stat` says of a path, with its error.
pub data FileStat : Type 0 where
  found missing : FileStat
  unreadable : Error → FileStat

-- What the server is built on: sessions, files, the file of dbservice with the bucket of its statistics,
-- and what is called of the older release, with `Output` for its outputs.
pub record UiServices : Type 1 where
  pub cookies : Cookies
  pub disk : Disk
  pub config : ConfigServices disk
  pub bolt : Bolt
  pub bucket_stats : String
  pub marshal_stats : Dict ℤ → Result String
  pub Settings : Type 0
  pub Output : Type 0
  pub unmarshal_settings : String → Result Settings
  -- `nil` for settings of no known type.
  pub build_and_init_otpt : Settings → Option Output
  -- layout.GenTestDescription with the output's provider
  pub test_description : Output → String → String
  pub send : Output → Dict String → Option Error
  -- filepath.Abs, filepath.Join, os.Stat
  pub abs : String → Result String
  pub join : (dir path : String) → String
  pub stat : String → FileStat
  -- http.ServeFile, and http.FileServer by its directory
  pub serve_file : Request cookies.Cookie → String → Answer cookies.Cookie
  pub file_server : String → Request cookies.Cookie → Answer cookies.Cookie

-- The state: the files and the calls, the file of dbservice, and what was sent to tested outputs.
pub record UiWorld (services : UiServices) : Type 0 where
  pub config_world : World services.disk
  pub db : services.bolt.File
  pub tested : List (services.Output × Dict String)

pub data Endpoint : Type 0 where
  api_login api_logout api_update_config api_get_config api_test api_stats ping web : Endpoint

pub data Route : Type 0 where
  -- HandleFunc(path).Methods(method)
  handle_func : (path method : String) → Endpoint → Route
  -- PathPrefix(path).Handler
  path_prefix : (path : String) → Endpoint → Route

abbrev pub routes : List Route
routes =
    handle_func "/api/login" "POST" api_login
    ∷ handle_func "/api/logout" "GET" api_logout
    ∷ handle_func "/api/config" "POST" api_update_config
    ∷ handle_func "/api/config" "GET" api_get_config
    ∷ handle_func "/api/test" "POST" api_test
    ∷ handle_func "/api/outputs/stats" "GET" api_stats
    ∷ handle_func "/ping" "GET" ping
    ∷ path_prefix "/" web
    ∷ []

module _ (services : UiServices) where
  open services use {
    cookies, disk, config, bolt, bucket_stats, marshal_stats, Output, unmarshal_settings,
    build_and_init_otpt, test_description, send, abs, join, stat, serve_file, file_server,
  }
  open cookies use {Cookie}

  -- The end of a handler, and the world that it leaves.
  abbrev pub Handling : Type 0
  Handling = Action (UiWorld services) (Answer Cookie)

  abbrev test_payload : Output → Dict String
  test_payload plg =
      ("title", "Postee test title")
      ∷ ("description", test_description plg "Postee test description")
      ∷ []

  abbrev tested_answer : Option Error → Answer Cookie
  tested_answer none = nothing_written
  tested_answer (some e) = http_error 400 ("Can't test output: " ++ (e ++ " \n"))

  -- Without an output the method of a nil interface is called.
  abbrev test_output : Option Output → Handling
  test_output none w = (panicked, w)
  test_output (some plg) w = (
    done (tested_answer (send plg (test_payload plg))),
    record w { tested = (plg, test_payload plg) ∷ w.tested },
  )

  abbrev test_parsed : Result services.Settings → Handling
  test_parsed (err e) w = (done (http_error 400 ("Can't read JSON string " ++ e)), w)
  test_parsed (ok settings) w = test_output (build_and_init_otpt settings) w

  unfoldable pub test_settings : Request Cookie → Handling
  test_settings r w = elim r.body [
    | err e ↦ (done (http_error 400 "Invalid request"), w)
    | ok body ↦ test_parsed (unmarshal_settings body) w
  ]

  -- localWebServer.ServeHTTP for the directory of the page and the URL "/".
  unfoldable pub serve_http : (local_path url : String) → Request Cookie → Answer Cookie
  serve_http local_path url r = elim (abs r.path) [
    | err e ↦ http_error 400 e
    | ok path ↦ elim (stat (join local_path path)) [
      | missing ↦ serve_file r (join local_path url)
      | unreadable e ↦ http_error 500 e
      | found ↦ file_server local_path r
    ]
  ]

  abbrev with_config : Answer Cookie × World disk → Handling
  with_config (a, c) w = (done a, record w { config_world = c })

  unfoldable pub ping_handler : Answer Cookie
  ping_handler = answer 200 ""

  module _ (web_local_path : String) (srv : UiServer) where
    -- The handler of each route.
    unfoldable pub run : Endpoint → Request Cookie → Handling
    unfolding test_settings serve_http ping_handler
    run api_login r w = (done (login cookies srv r), w)
    run api_logout r w = (done (logout cookies r), w)
    run api_update_config r w =
        with_config (update_config Cookie disk config srv r w.config_world) w
    run api_get_config r w = with_config (get_config Cookie disk config srv w.config_world) w
    run api_test r w = test_settings r w
    run api_stats r w = (done (plgn_stats bolt bucket_stats marshal_stats w.db), w)
    run ping r w = (done ping_handler, w)
    run web r w = (done (serve_http web_local_path "/" r), w)

    module _ (match : List Route → Request Cookie → Answer Cookie ⊎ Endpoint) where
      abbrev dispatch : Answer Cookie ⊎ Endpoint → Request Cookie → Handling
      dispatch (inl a) r w = (done a, w)
      dispatch (inr e) r w = authentication_middleware cookies (run e) r w

      -- A request: `match` stands for mux, which finds the route of a request or answers by itself. The
      -- middleware stands before every route.
      unfoldable pub serve : Request Cookie → Handling
      unfolding run
      serve r w = dispatch (match routes r) r w

      -- The world after the requests, one after the other.
      unfoldable pub serve_all : List (Request Cookie) → UiWorld services → UiWorld services
      unfolding serve
      serve_all [] w = w
      serve_all (r ∷ rs) w = serve_all rs (serve r w).1
