-- ===== src/System/Saved/Tests.antt =====
-- A configuration is saved by the user interface, and loaded by the router.
use postee.Prelude.{
  String, true, false, none, some, [], ◌∷◌, ◌≡◌, ◌≢◌, subst, arith, eq_iff, Result, ok, err, refl,
  insert, if◌then◌else◌, ◌==◌,
}
use postee.Prelude.Int.{pos, mul_int}
use postee.Prelude.Text.{strip_prefix, strip_suffix}
use postee.Routes.{times}
use postee.Outputs.Records.{JiraServices, stdout, init}
use postee.Rego.Eval.{Engine}
use postee.Router.Settings.{OutputSettings, TenantSettings}
use postee.Router.Builders.{build_and_init_otpt}
use postee.Router.State.{
  Router, RouterServices, parsev2cfg, start, reload_config, terminate, stop_schedulers, quit,
}
use postee.Web.{with_api_key}
use postee.Ui.World.{Session, Request, UiServer}
use postee.Ui.Memory.{memory_disk, memory_disk-DiskLaws, holding, cfg_path}
use postee.Ui.Config.{ConfigServices, World, update_config, reload_url}
use postee.System.Saved.{get_reload, update_config-get_reload}

abbrev engine : Engine
engine = record {
  Query = String;
  eval = λ query input. ok [];
  marshal = λ v. ok "";
  unmarshal_maps = λ text. none;
}

abbrev jira_services : JiraServices
jira_services = record {
  host_of = λ url. ok url;
  new_client = λ transport url. none;
  get_all_boards = λ transport url project. ok [];
  jira_password = "";
}

abbrev log_output : OutputSettings
log_output = record {
  name = "log";
  type = "stdout";
  enable = true;
  url = "";
  user = "";
  password = "";
  tls_verify = false;
  project_key = "";
  issue_type = "";
  board_name = "";
  priority = "";
  assignee = [];
  summary = "";
  fix_versions = [];
  affects_versions = [];
  labels = [];
  sprint = "";
  unknowns = [];
  host = "";
  port = pos 0;
  recipients = [];
  sender = "";
  token = "";
  use_mx = false;
  instance_name = "";
  size_limit = pos 0;
}

-- What the saved text stands for.
abbrev tenant : TenantSettings
tenant = record {
  aqua_server = "https://aqua";
  db_max_size = pos 0;
  db_remove_old_data = pos 0;
  db_test_interval = pos 1;
  outputs = log_output ∷ [];
  input_routes = [];
  templates = [];
}

abbrev ui : ConfigServices memory_disk
ui = record { parsev2cfg = λ files path. none; get_api_key = ok "00ff"; http_get = λ url. none }

abbrev server : UiServer
server = record {
  port = "8090";
  cfg_path = cfg_path;
  webhook_url = "http://postee";
  admusr = "admin";
  admpwd = "admin";
}

abbrev request : Request Session
request = record {
  method = "POST";
  now = 0;
  request_uri = "/api/config";
  path = "/api/config";
  cookie = record { user = some "admin"; max_age = pos 86400 };
  form_value = λ name. "";
  body = ok "outputs: [log]";
}

abbrev before : World memory_disk
before = record { files = holding cfg_path (some "outputs: []") (λ path. none); called = [] }

-- The router reads the file that the update leaves.
abbrev services : RouterServices engine
services = record {
  read_file =
      λ path. memory_disk.read_file (holding cfg_path (some "outputs: [log]") (λ path. none)) path;
  yaml_unmarshal = λ text. if text == "outputs: [log]" then ok tenant else err "no YAML";
  request = λ url. ok url;
  http_get = λ url. ok (200, ok "");
  prepare = λ source. ok "query";
  getenv = λ name. "";
  jira = jira_services;
  order = times;
}

abbrev running : Router engine
running = record {
  cfgfile = cfg_path;
  aqua_server = "";
  outputs = ("old", stdout (record { name = "old" })) ∷ [];
  input_routes = [];
  templates = [];
  db_size_limit = pos 0;
  checker = true;
  listeners = 1;
}

abbrev loaded : Router engine
loaded = record {
  cfgfile = cfg_path;
  aqua_server = "https://aqua/#/images/";
  outputs = ("log", stdout (record { name = "log" })) ∷ [];
  input_routes = [];
  templates = [];
  db_size_limit = pos 0;
  checker = true;
  listeners = 1;
}

server_is_set : tenant.aqua_server ≢ ""
server_is_set e = ground (arith, e, eq_iff "https://aqua" "")

-- The key of a URL, after `/reload?key=`.
abbrev key_of : String → String
key_of url = if url == "http://postee/reload?key=00ff" then "00ff" else ""

the_key :
    (key : String)
    → ◌≡◌ {A = Result String} (ok "00ff") (ok key)
    → key_of (reload_url server.webhook_url key) ≡ key
the_key key e =
    let same : "00ff" ≡ key = cc in
    subst (λ k. key_of (reload_url server.webhook_url k) ≡ k) same refl

-- What the reload leaves.
abbrev reloaded : Router engine
reloaded = record loaded { listeners = 1 }

update_config-get_reload_example : reloaded ≡ record loaded { listeners = running.listeners }
unfolding parsev2cfg update_config get_reload with_api_key reload_config terminate stop_schedulers
    quit start mul_int strip_suffix build_and_init_otpt insert strip_prefix init
update_config-get_reload_example =
    update_config-get_reload services (ok "00ff") key_of ui server Session memory_disk-DiskLaws
      request "outputs: [log]" "http://postee/reload?key=00ff" before running reloaded running
      (record loaded { listeners = 2 }) none tenant refl refl refl refl refl the_key refl
      server_is_set refl refl refl
