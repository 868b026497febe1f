-- ===== src/Router/Tests.antt =====
-- The router on a small configuration.
use postee.Prelude.{
  ◌≢◌, arith, eq_iff, insert, String, true, false, none, [], ◌∷◌, ok, err, ◌≡◌, refl, lookup,
}
use postee.Prelude.Int.{pos, mul_int}
use postee.Routes.{
  InputRoute, no_channel, times, stop_scheduler, configure_timeouts, parse_timeouts,
}
use postee.Outputs.Records.{JiraServices, stdout, get_name, html, init}
use postee.Prelude.Text.{strip_prefix, strip_suffix, replace_all}
use postee.Rego.Eval.{Engine}
use postee.Rego.Build.{legacy}
use postee.Router.Settings.{
  TenantSettings, OutputSettings, anonymize_settings, anonymize_settings-hides,
}
use postee.Router.Builders.{build_and_init_otpt}
use postee.Router.State.{
  Router, RouterServices, returned, blocked, terminate, parsev2cfg, reload_config, stop_schedulers,
  quit,
}
use postee.Router.Dispatch.{handle_route, Follows, handle_route-Follows}
use postee.Router.Reload.{reload_config-start}
use postee.Router.Lifecycle.{reload_config-stuck}
use postee.Router.Outputs.{get_name-build_and_init_otpt}

abbrev engine : Engine
engine = record {
  Query = String;
  eval = λ query input. ok [];
  marshal = λ v. ok "";
  unmarshal_maps = λ text. none;
}

abbrev jira_services : JiraServices
jira_services = record {
  host_of = λ url. ok url;
  new_client = λ transport url. none;
  get_all_boards = λ transport url project. ok [];
  jira_password = "";
}

abbrev services : RouterServices engine
services = record {
  read_file = λ path. err "no such file";
  yaml_unmarshal = λ text. err "no YAML";
  request = λ url. ok url;
  http_get = λ url. ok (200, ok "");
  prepare = λ source. ok "query";
  getenv = λ name. "";
  jira = jira_services;
  order = times;
}

abbrev settings_of : String → OutputSettings
settings_of type = record {
  name = "out";
  type = type;
  enable = true;
  url = "";
  user = "";
  password = "";
  tls_verify = false;
  project_key = "";
  issue_type = "";
  board_name = "";
  priority = "";
  assignee = [];
  summary = "";
  fix_versions = [];
  affects_versions = [];
  labels = [];
  sprint = "";
  unknowns = [];
  host = "";
  port = pos 0;
  recipients = [];
  sender = "";
  token = "";
  use_mx = false;
  instance_name = "";
  size_limit = pos 0;
}

anonymize_settings-hides_example :
    anonymize_settings
      (record (settings_of "email") { user = ""; password = ""; url = ""; instance_name = "" })
    ≡ anonymize_settings (settings_of "email")
anonymize_settings-hides_example =
    anonymize_settings-hides (settings_of "email") "" "" "" "" refl refl refl refl

get_name-build_and_init_otpt_example : get_name (stdout (record { name = "out" })) ≡ "out"
unfolding build_and_init_otpt strip_prefix init
get_name-build_and_init_otpt_example =
    get_name-build_and_init_otpt services.getenv jira_services (settings_of "stdout") ""
      (stdout (record { name = "out" })) refl

abbrev route : InputRoute
route = record {
  name = "route";
  input = "";
  input_files = [];
  outputs = "out" ∷ "off" ∷ [];
  plugins = record {
    aggregate_message_number = pos 0;
    aggregate_message_timeout = "";
    aggregate_timeout_seconds = pos 0;
    unique_message_props = [];
    unique_message_timeout = "";
    unique_message_timeout_seconds = pos 0;
  };
  template = "t";
  scheduling = no_channel;
}

abbrev running : Router engine
running = record {
  cfgfile = "cfg.yaml";
  aqua_server = "";
  outputs = ("out", stdout (record { name = "out" })) ∷ [];
  input_routes = ("route", route) ∷ [];
  templates = ("t", legacy html) ∷ [];
  db_size_limit = pos 0;
  checker = true;
  listeners = 1;
}

handle_route-Follows_example :
    Follows running "route" "{}" ("out" ∷ "off" ∷ []) (handle_route running "route" "{}")
unfolding lookup
handle_route-Follows_example = handle_route-Follows running "route" "{}" route refl

reload_config-stuck_example :
    (ctx' : Router engine) × (reload_config services running ≡ returned ctx')
    × (ctx'.outputs ≡ [])
    × (reload_config services ctx' ≡ blocked)
unfolding terminate stop_schedulers quit stop_scheduler parsev2cfg
reload_config-stuck_example =
    reload_config-stuck services services running (record running { listeners = 0 }) "no such file"
      refl refl refl

abbrev tenant : TenantSettings
tenant = record {
  aqua_server = "https://aqua";
  db_max_size = pos 0;
  db_remove_old_data = pos 0;
  db_test_interval = pos 1;
  outputs = settings_of "stdout" ∷ [];
  input_routes = route ∷ [];
  templates =
      record { name = "t"; body = ""; rego_package = ""; legacy_scan_renderer = "html"; url = "" }
      ∷ [];
}

abbrev readable : RouterServices engine
readable = record services { read_file = λ path. ok "config"; yaml_unmarshal = λ text. ok tenant }

-- What the configuration says, with the timeouts of the route read.
abbrev loaded : Router engine
loaded = record {
  cfgfile = "cfg.yaml";
  aqua_server = "https://aqua/#/images/";
  outputs = ("out", stdout (record { name = "out" })) ∷ [];
  input_routes = ("route", route) ∷ [];
  templates = ("t", legacy html) ∷ [];
  db_size_limit = pos 0;
  checker = true;
  listeners = 1;
}

abbrev nothing_yet : Router engine
nothing_yet = record {
  cfgfile = "";
  aqua_server = "";
  outputs = [];
  input_routes = [];
  templates = [];
  db_size_limit = pos 0;
  checker = false;
  listeners = 0;
}

abbrev long_running : Router engine
long_running = record running {
  aqua_server = "https://old/#/images/";
  outputs = ("old", stdout (record { name = "old" })) ∷ [];
  listeners = 2;
}

server_is_set : tenant.aqua_server ≢ ""
server_is_set e = ground (arith, e, eq_iff "https://aqua" "")

-- What the reload of the router that ran before leaves.
abbrev reloaded : Router engine
reloaded = record loaded { listeners = 2 }

reload_config-start_example : reloaded ≡ record loaded { listeners = 2 }
unfolding terminate stop_schedulers quit stop_scheduler parsev2cfg reload_config mul_int
    strip_suffix build_and_init_otpt insert strip_prefix configure_timeouts init parse_timeouts
    replace_all
reload_config-start_example =
    reload_config-start readable long_running reloaded nothing_yet loaded none tenant refl
      server_is_set refl refl
