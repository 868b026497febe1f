-- ===== src/Outputs/Records.antt =====
-- outputs: what an output keeps, and its Init and Terminate.
use postee.Prelude.{
  String, Bool, false, Option, none, some, List, [], ◌∷◌, Result, ok, err, Error, ◌==◌, not,
  if◌then◌else◌, Dict,
}
use Prim.Native.String.{◌++◌}
use postee.Prelude.Int.{ℤ}
use postee.Prelude.Text.{has_suffix}

-- The layout providers of formatting; an output has none before its Init.
pub data Layout : Type 0 where
  html slack_mrkdwn jira_layout : Layout

pub record EmailOutput : Type 0 where
  pub name : String
  pub user : String
  pub password : String
  pub host : String
  pub port : ℤ
  pub sender : String
  pub recipients : List String
  pub use_mx : Bool

pub record ServiceNowOutput : Type 0 where
  pub name : String
  pub user : String
  pub password : String
  pub instance_name : String
  pub table : String
  pub layout_provider : Option Layout

pub record SlackOutput : Type 0 where
  pub name : String
  pub aqua_server : String
  pub url : String
  pub slack_layout : Option Layout

pub record SplunkOutput : Type 0 where
  pub name : String
  pub url : String
  pub token : String
  pub event_limit : ℤ
  pub splunk_layout : Option Layout

pub record StdoutOutput : Type 0 where
  pub name : String

pub record TeamsOutput : Type 0 where
  pub name : String
  pub aqua_server : String
  pub teams_layout : Option Layout
  pub webhook : String

pub record WebhookOutput : Type 0 where
  pub name : String
  pub url : String

pub record JiraApi : Type 0 where
  pub name : String
  pub url : String
  pub user : String
  pub password : String
  pub token : String
  pub tls_verify : Bool
  pub issuetype : String
  pub project_key : String
  pub priority : String
  pub assignee : List String
  pub description : String
  pub summary : String
  pub sprint_name : String
  pub sprint_id : ℤ
  pub fix_versions : List String
  pub affects_versions : List String
  pub labels : List String
  pub unknowns : Dict String
  pub board_name : String
  pub board_id : ℤ
  pub board_type : String

pub data Output : Type 0 where
  jira : JiraApi → Output
  email : EmailOutput → Output
  slack : SlackOutput → Output
  teams : TeamsOutput → Output
  service_now : ServiceNowOutput → Output
  webhook : WebhookOutput → Output
  splunk : SplunkOutput → Output
  stdout : StdoutOutput → Output

abbrev init_email : EmailOutput → EmailOutput
init_email o = if o.sender == "" then record o { sender = o.user } else o

abbrev init_slack : SlackOutput → SlackOutput
init_slack o = record o { slack_layout = some slack_mrkdwn }

abbrev init_teams : TeamsOutput → TeamsOutput
init_teams o = record o { teams_layout = some html }

abbrev init_service_now : ServiceNowOutput → ServiceNowOutput
init_service_now o = record o { layout_provider = some html }

abbrev init_splunk : SplunkOutput → SplunkOutput
init_splunk o = record o { splunk_layout = some html }

unfoldable pub get_name : Output → String
get_name (jira o) = o.name
get_name (email o) = o.name
get_name (slack o) = o.name
get_name (teams o) = o.name
get_name (service_now o) = o.name
get_name (webhook o) = o.name
get_name (splunk o) = o.name
get_name (stdout o) = o.name

unfoldable pub get_layout_provider : Output → Option Layout
get_layout_provider (jira o) = some jira_layout
get_layout_provider (email o) = some html
get_layout_provider (slack o) = o.slack_layout
get_layout_provider (teams o) = o.teams_layout
get_layout_provider (service_now o) = o.layout_provider
get_layout_provider (webhook o) = some html
get_layout_provider (splunk o) = o.splunk_layout
get_layout_provider (stdout o) = some html

pub record Board : Type 0 where
  pub id : ℤ
  pub name : String
  pub type : String

-- What authenticates the calls of a Jira client.
pub data Transport : Type 0 where
  bearer : (token : String) → (tls_verify : Bool) → Transport
  basic : (user password : String) → (tls_verify : Bool) → Transport

-- go-jira, net/url and the environment, as far as Init uses them.
pub record JiraServices : Type 0 where
  pub host_of : String → Result String
  pub new_client : Transport → String → Option Error
  pub get_all_boards : Transport → String → String → Result (List Board)
  pub jira_password : String

module _ (services : JiraServices) where
  unfoldable pub is_server_jira : String → Bool
  is_server_jira raw_url = elim (services.host_of raw_url) [
    | ok host ↦ not (has_suffix host "atlassian.net")
    | err e ↦ false
  ]

  unfoldable pub build_transport_client : JiraApi → Result Transport
  unfolding is_server_jira
  build_transport_client ctx =
      if ctx.token == ""
      then ok (basic ctx.user ctx.password ctx.tls_verify)
      else if is_server_jira ctx.url
      then ok (bearer ctx.token ctx.tls_verify)
      else err "Jira Cloud can't work with PAT"

  unfoldable pub create_client : JiraApi → Result Transport
  unfolding build_transport_client
  create_client ctx = elim (build_transport_client ctx) [
    | err e ↦ err ("unable to create new JIRA client. " ++ e)
    | ok tp ↦ elim (services.new_client tp ctx.url) [
      | some e ↦ err ("unable to create new JIRA client. " ++ e)
      | none ↦ ok tp
    ]
  ]

  -- The loop over the boards: the last one of the name is kept.
  unfoldable pub take_board : String → List Board → JiraApi → JiraApi
  take_board board_name [] ctx = ctx
  take_board board_name (board ∷ boards) ctx = take_board board_name boards (
      if board.name == board_name
      then record ctx { board_id = board.id; board_type = board.type }
      else ctx)

  abbrev pub take_found : String → JiraApi → Result (List Board) → JiraApi
  take_found board_name ctx (err e) = ctx
  take_found board_name ctx (ok boards) = take_board board_name boards ctx

  abbrev pub with_client : String → JiraApi → Result Transport → JiraApi
  with_client board_name ctx (err e) = ctx
  with_client board_name ctx (ok client) =
      take_found board_name ctx (services.get_all_boards client ctx.url ctx.project_key)

  unfoldable pub fetch_board_id : String → JiraApi → JiraApi
  unfolding create_client take_board
  fetch_board_id board_name ctx = with_client board_name ctx (create_client ctx)

  abbrev pub named_board : JiraApi → JiraApi
  named_board ctx =
      if ctx.board_name == "" then record ctx { board_name = ctx.project_key ++ " board" } else ctx

  abbrev pub with_password : JiraApi → JiraApi
  with_password ctx =
      if ctx.password == "" then record ctx { password = services.jira_password } else ctx

  unfoldable pub init_jira : JiraApi → JiraApi
  unfolding fetch_board_id
  init_jira ctx = with_password (fetch_board_id (named_board ctx).board_name (named_board ctx))

  -- Init of each output by its type; none returns an error.
  unfoldable pub init : Output → Output
  unfolding init_jira
  init (jira o) = jira (init_jira o)
  init (email o) = email (init_email o)
  init (slack o) = slack (init_slack o)
  init (teams o) = teams (init_teams o)
  init (service_now o) = service_now (init_service_now o)
  init (webhook o) = webhook o
  init (splunk o) = splunk (init_splunk o)
  init (stdout o) = stdout o
