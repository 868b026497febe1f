-- ===== src/Web/Start.antt =====
-- webserver.Start: the certificate, the key of the reload, the routes and the listeners.
use postee.Prelude.{String, List, [], ◌∷◌, Result, ok, err, ◌==◌, if◌then◌else◌}
use postee.Utils.Environment.{PathStat, path_exists}

-- The handlers of the routes; all but the reload stand in `sessionHandler`, which only calls them.
pub data Handler : Type 0 where
  scan tenant ping reload_with_api_key : Handler

abbrev pub web_routes : List (String × String × Handler)
web_routes =
    ("/", "POST", scan)
    ∷ ("/tenant/{route}", "POST", tenant)
    ∷ ("/scan", "POST", scan)
    ∷ ("/ping", "GET", ping)
    ∷ ("/reload", "GET", reload_with_api_key)
    ∷ []

-- What a start does, in its order.
pub data Startup : Type 0 where
  certificate : (key_pem cert_pem : String) → Startup
  api_key : Startup
  listen_http : (host : String) → List (String × String × Handler) → Startup
  listen_https : (host cert_pem key_pem : String) → List (String × String × Handler) → Startup

-- An error of the root's path is dropped, and the path is then empty. `join` stands for `filepath.Join`.
module _ (getenv : String → String) (stat : String → PathStat) (join : (dir name : String) → String)
    (root : Result String) where
  abbrev root_dir : Result String → String
  root_dir (err e) = ""
  root_dir (ok dir) = dir

  abbrev pem_file : (variable name : String) → String
  pem_file variable name =
      if getenv variable == "" then join (root_dir root) name else getenv variable

  -- Errors of the certificate and of the key are logged, and the start goes on. The certificate is made
  -- at the paths beside the program, also where the environment names others.
  unfoldable pub start_server : (host tls_host : String) → List Startup
  start_server host tls_host =
      let rest =
        api_key
        ∷ listen_http host web_routes
        ∷ listen_https tls_host (pem_file "AQUAALERT_CERT_PEM" "cert.pem")
            (pem_file "AQUAALERT_KEY_PEM" "key.pem") web_routes
        ∷ [] in
      if path_exists stat (join (root_dir root) "key.pem")
      then rest
      else certificate (join (root_dir root) "key.pem") (join (root_dir root) "cert.pem") ∷ rest
