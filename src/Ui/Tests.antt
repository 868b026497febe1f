-- ===== src/Ui/Tests.antt =====
-- Small requests to the user interface.
use postee.Prelude.{
  ℕ, ◌+◌, done, String, none, some, List, [], ◌∷◌, ok, ◌≡◌, ◌≢◌, ◌⊎◌, inr, refl, arith, eq_iff,
  Dict, lookup,
}
use postee.Prelude.Int.{ℤ, negsuc, pos, add_int}
use postee.Prelude.Text.{itoa, itoa_nat, atoi, ltb_text, strip_prefix}
use postee.Db.Memory.{memory, memory-BoltLaws, entries_of, has_bucket_of}
use postee.Db.Access.{bucket_output_stats, open_db, init}
use postee.Db.Stats.{register_plgn_invctn}
use postee.Db.Stats.Count.{register_times}
use postee.Ui.World.{Session, Request, Answer, UiServer, answer, http_error}
use postee.Ui.Memory.{
  memory_disk, memory_disk-DiskLaws, memory_cookies, memory_cookies-CookiesLaws, holding, cfg_path,
}
use postee.Ui.Login.{login, logout, authentication_middleware, get_user_from_request}
use postee.Ui.Login.Admission.{Admitted, login-Admitted, authentication_middleware-logout}
use postee.Ui.Config.{ConfigServices, World, update_config}
use postee.Ui.Config.Saving.{Kept, update_config-Kept}
use postee.Ui.Stats.{get_plgn_stats}
use postee.Ui.Stats.Counted.{get_plgn_stats-register_times}
use postee.Ui.Server.{UiServices, UiWorld, Endpoint, Route, api_update_config, serve_all, found}
use postee.Ui.Server.Guard.{IsForeign, serve_all-foreign}

abbrev server : UiServer
server = record {
  port = "8090";
  cfg_path = cfg_path;
  webhook_url = "http://postee";
  admusr = "admin";
  admpwd = "admin";
}

abbrev no_user : Session
no_user = record { user = none; max_age = pos 86400 }

abbrev fields : String → String
fields name = "admin"

abbrev request : String → Request (Session × ℕ)
request uri = record {
  method = "POST";
  request_uri = uri;
  path = "/api/config";
  now = 10;
  cookie = (no_user, 0);
  form_value = fields;
  body = ok "outputs: []";
}

admin_is_set : ◌≢◌ {A = String} "admin" ""
admin_is_set e = ground (arith, e, eq_iff "admin" "")

login-Admitted_example :
    ((login memory_cookies server (request "/api/login")).cookie ≡ none)
    ⊎ ((c : Session × ℕ) × ((login memory_cookies server (request "/api/login")).cookie ≡ some c)
        × (◌≡◌ {A = String} "admin" "admin")
        × (◌≡◌ {A = String} "admin" "admin")
        × Admitted memory_cookies-CookiesLaws ℕ c (10 + 86400))
login-Admitted_example =
    login-Admitted memory_cookies-CookiesLaws ℕ server (request "/api/login") admin_is_set

-- The cookie of a logout at 10, two seconds later.
abbrev ended : Session × ℕ
ended = (record { user = some ""; max_age = negsuc 0 }, 10)

abbrev later_request : Request (Session × ℕ)
later_request = record (request "/api/config") { cookie = ended; now = 12 }

logged_out : (logout memory_cookies (request "/api/logout")).cookie ≡ some ended
unfolding logout
logged_out = refl

authentication_middleware-logout_example :
    authentication_middleware memory_cookies {W = ℕ}
      (λ r w. (done (answer 200 "secret"), w))
      later_request
      7
    ≡ (done (http_error 401 "Forbidden"), 7)
unfolding strip_prefix
authentication_middleware-logout_example =
    authentication_middleware-logout memory_cookies-CookiesLaws ℕ (request "/api/logout")
      later_request ended logged_out refl refl refl (λ r w. (done (answer 200 "secret"), w)) 7

abbrev config_services : ConfigServices memory_disk
config_services = record {
  parsev2cfg = λ files path. none;
  get_api_key = ok "key";
  http_get = λ url. none;
}

abbrev config_world : World memory_disk
config_world = record { files = holding cfg_path (some "old") (λ path. none); called = [] }

update_config-Kept_example : Kept config_services server "outputs: []" config_world.files (
    update_config
      (Session × ℕ)
      memory_disk
      config_services
      server
      (request "/api/config")
      config_world)
update_config-Kept_example =
    update_config-Kept config_services server (Session × ℕ) memory_disk-DiskLaws
      (request "/api/config") "outputs: []" config_world refl

get_plgn_stats-register_times_example :
    (r : Dict ℤ) × (get_plgn_stats memory bucket_output_stats
        (register_times memory-BoltLaws "out" 2 [])
      ≡ ok r)
    × (lookup "out" r ≡ some (pos 2))
unfolding register_plgn_invctn open_db init entries_of has_bucket_of itoa itoa_nat atoi add_int
    ltb_text
get_plgn_stats-register_times_example =
    get_plgn_stats-register_times memory-BoltLaws "out" 1 [] (omega arith) refl (refl, (refl, tt))
      refl refl (refl, tt)

abbrev ui_services : UiServices
ui_services = record {
  cookies = memory_cookies;
  disk = memory_disk;
  config = config_services;
  bolt = memory;
  bucket_stats = bucket_output_stats;
  marshal_stats = λ stats. ok "{}";
  Settings = String;
  Output = String;
  unmarshal_settings = λ text. ok text;
  build_and_init_otpt = λ settings. none;
  test_description = λ output text. text;
  send = λ output content. none;
  abs = λ path. ok path;
  join = λ dir path. path;
  stat = λ path. found;
  serve_file = λ r path. answer 200 path;
  file_server = λ dir r. answer 200 dir;
}

abbrev ui_world : UiWorld ui_services
ui_world = record { config_world = config_world; db = []; tested = [] }

abbrev to_update : List Route → Request (Session × ℕ) → Answer (Session × ℕ) ⊎ Endpoint
to_update table r = inr api_update_config

foreign : IsForeign ui_services "/www" server to_update (request "/api/config")
unfolding strip_prefix get_user_from_request
foreign = record { api = refl; no_login = refl; no_user = refl }

serve_all-foreign_example :
    serve_all ui_services "/www" server to_update (request "/api/config" ∷ []) ui_world ≡ ui_world
serve_all-foreign_example =
    serve_all-foreign ui_services "/www" server to_update (request "/api/config" ∷ []) ui_world
      (foreign, tt)
