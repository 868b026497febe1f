-- ===== src/Router/Builders.antt =====
-- router/builders.go and BuildAndInitOtpt: the outputs that the settings describe.
use postee.Prelude.{
  String, Bool, true, Option, none, some, [], ◌∷◌, ◌==◌, ◌&&◌, if◌then◌else◌, is_empty,
}
use postee.Prelude.Int.{pos, negsuc}
use postee.Prelude.Text.{has_prefix, trim_prefix, to_upper}
use postee.Outputs.Records.{
  Output, EmailOutput, ServiceNowOutput, SlackOutput, SplunkOutput, StdoutOutput, TeamsOutput,
  WebhookOutput, JiraApi, JiraServices, jira, email, slack, teams, service_now, webhook, splunk,
  stdout, init,
}
use postee.Router.Settings.{OutputSettings}

unfoldable pub get_environment_var_or_plain : (String → String) → String → String
get_environment_var_or_plain getenv value =
    if has_prefix value "$" then getenv (trim_prefix value "$") else value

abbrev pub require_authorization : String → Bool
require_authorization type = type == "servicenow"

abbrev or_default : String → String → String
or_default value default = if value == "" then default else value

unfoldable pub build_stdout_output : OutputSettings → StdoutOutput
build_stdout_output s = record { name = s.name }

unfoldable pub build_splunk_output : OutputSettings → SplunkOutput
build_splunk_output s = record {
  name = s.name;
  url = s.url;
  token = s.token;
  event_limit = s.size_limit;
  splunk_layout = none;
}

unfoldable pub build_webhook_output : OutputSettings → WebhookOutput
build_webhook_output s = record { name = s.name; url = s.url }

unfoldable pub build_teams_output : OutputSettings → String → TeamsOutput
build_teams_output s server = record {
  name = s.name;
  aqua_server = server;
  teams_layout = none;
  webhook = s.url;
}

unfoldable pub build_service_now : OutputSettings → ServiceNowOutput
build_service_now s = record {
  name = s.name;
  user = s.user;
  password = s.password;
  instance_name = s.instance_name;
  table = or_default s.board_name "incident";
  layout_provider = none;
}

unfoldable pub build_slack_output : OutputSettings → String → SlackOutput
build_slack_output s server = record {
  name = s.name;
  aqua_server = server;
  url = s.url;
  slack_layout = none;
}

unfoldable pub build_email_output : OutputSettings → EmailOutput
build_email_output s = record {
  name = s.name;
  user = s.user;
  password = s.password;
  host = s.host;
  port = s.port;
  sender = s.sender;
  recipients = s.recipients;
  use_mx = s.use_mx;
}

unfoldable pub build_jira_output : OutputSettings → JiraApi
build_jira_output s = record {
  name = s.name;
  url = s.url;
  user = s.user;
  password = s.password;
  token = s.token;
  tls_verify = s.tls_verify;
  issuetype = or_default s.issue_type "Task";
  project_key = to_upper s.project_key;
  priority = or_default s.priority "High";
  assignee = if is_empty s.assignee then s.user ∷ [] else s.assignee;
  description = "";
  summary = "";
  sprint_name = s.sprint;
  sprint_id = negsuc 0;
  fix_versions = s.fix_versions;
  affects_versions = s.affects_versions;
  labels = s.labels;
  unknowns = s.unknowns;
  board_name = s.board_name;
  board_id = pos 0;
  board_type = "";
}

unfoldable pub build_output : OutputSettings → String → Option Output
unfolding build_jira_output build_email_output build_slack_output build_teams_output
    build_service_now build_webhook_output build_splunk_output build_stdout_output
build_output s server =
    if s.type == "jira"
    then some (jira (build_jira_output s))
    else if s.type == "email"
    then some (email (build_email_output s))
    else if s.type == "slack"
    then some (slack (build_slack_output s server))
    else if s.type == "teams"
    then some (teams (build_teams_output s server))
    else if s.type == "serviceNow"
    then some (service_now (build_service_now s))
    else if s.type == "webhook"
    then some (webhook (build_webhook_output s))
    else if s.type == "splunk"
    then some (splunk (build_splunk_output s))
    else if s.type == "stdout"
    then some (stdout (build_stdout_output s))
    else none

module _ (getenv : String → String) (services : JiraServices) where
  -- The settings are changed in place: the user, the password and the token are read from the
  -- environment one after the other.
  abbrev pub resolved : OutputSettings → OutputSettings
  resolved s = record s {
    user = get_environment_var_or_plain getenv s.user;
    password = get_environment_var_or_plain getenv s.password;
    token = get_environment_var_or_plain getenv s.token;
  }

  abbrev pub lacks_authorization : OutputSettings → Bool
  lacks_authorization s =
      if s.user == "" && require_authorization s.type
      then true
      else s.password == "" && require_authorization s.type

  abbrev pub lacks_jira_credentials : OutputSettings → Bool
  lacks_jira_credentials s =
      s.type == "jira" && (if s.user == "" then true else s.token == "" && s.password == "")

  abbrev pub init_some : Option Output → Option Output
  init_some none = none
  init_some (some o) = some (init services o)

  unfoldable pub build_and_init_otpt : OutputSettings → String → Option Output
  unfolding build_output get_environment_var_or_plain
  build_and_init_otpt settings server =
      let s : OutputSettings = resolved settings in
      if lacks_authorization s
      then none
      else if lacks_jira_credentials s
      then none
      else init_some (build_output s server)
