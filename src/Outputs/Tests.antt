-- ===== src/Outputs/Tests.antt =====
-- The sending of small messages, with answers of the services written out.
use postee.Prelude.{
  ◌≤◌, ◌+◌, false, Dict, err, if◌then◌else◌, ◌==◌, String, true, none, some, List, [], ◌∷◌, Result,
  ok, ◌≡◌, ◌≢◌, ◌⊎◌, All, arith, eq_iff, lookup, insert, refl,
}
use postee.Prelude.Int.{pos}
use postee.Prelude.Text.{to_lower}
use postee.Data.{ScanImageInfo}
use postee.Layout.Html.{html_provider}
use postee.Outputs.Records.{SlackOutput, ServiceNowOutput, Transport, bearer}
use postee.Outputs.Recipients.{
  get_handled_recipients, get_handled_recipients-All, get_app_scope_owners, application_scope_owner,
}
use postee.Outputs.Splunk.{SplunkServices, shrink, shrink_lem, fits}
use postee.Outputs.Email.{Smtp, send_via_mx_servers}
use postee.Outputs.Email.Once.{taken, occurrences, taken-send_via_mx_servers}
use postee.Outputs.Chat.Created.{over, IsCreated, send_service_now-IsCreated}
use postee.Clients.{HttpServices, insert_record_to_table}
use postee.Outputs.Jira.{MetaProject, MetaIssueType, IssueServices, init_issue, text, priority}
use postee.Outputs.Jira.Filling.{Apart, IsFilled, init_issue-IsFilled}
use postee.Outputs.Chat.{ChatServices, send_service_now, send_slack, send_slack-once}

abbrev a_scan : ScanImageInfo
a_scan = record {
  image = "alpine";
  registry = "";
  digest = "";
  previous_digest = "";
  disallowed = false;
  checks_performed = [];
  total = pos 0;
  critical = pos 0;
  high = pos 0;
  medium = pos 0;
  low = pos 0;
  negligible = pos 0;
  sensitive = pos 1;
  malware = pos 0;
  scan_sensitive_data = true;
  scan_malware = false;
  resources = [];
  application_scope_owners = [];
  malwares = [];
  sensitive_data = record { filename = "f"; path = "/"; type = "key"; hash = "h" } ∷ [];
}

abbrev splunk_services : SplunkServices
splunk_services = record {
  unmarshal = λ text. ok a_scan;
  marshal = λ s. ok "{}";
  post = λ url token body. ok 200;
}

shrink_lem_example :
    (r : Result String) × (shrink splunk_services 4 (pos 50) a_scan ≡ some r)
    × ((fields : String) → r ≡ ok fields → fits splunk_services (pos 50) fields ≡ true)
shrink_lem_example = shrink_lem splunk_services (pos 50) a_scan

abbrev chat_services : ChatServices String
chat_services = record {
  unmarshal_blocks = λ text. ok ("block" ∷ []);
  marshal_blocks = λ blocks. "[block]";
  escape = λ text. text;
  post = λ log url body. none;
  insert_record = λ user password instance_name table body. none;
  marshal_record = λ short notes. ok "{}";
  http_post = λ url body. ok (200, ok "");
}

abbrev channel : SlackOutput
channel = record { name = "chat"; aqua_server = ""; url = "https://slack"; slack_layout = none }

send_slack-once_example :
    ((send_slack chat_services html_provider channel (("title", "t") ∷ []) []).1 ≡ [])
    ⊎ ((body : String) × ((send_slack chat_services html_provider channel
            (("title", "t") ∷ [])
            []).1
          ≡ ("https://slack", body) ∷ []))
send_slack-once_example =
    send_slack-once chat_services html_provider channel (("title", "t") ∷ []) []

differs : ◌≢◌ {A = String} "a@b" ""
differs e = ground (arith, e, eq_iff "a@b" "")

placeholder_differs : application_scope_owner ≢ ""
placeholder_differs e = ground (arith, e, eq_iff application_scope_owner "")

no_owners :
    (owners : List String) → get_app_scope_owners [] ≡ some owners → All (λ r. r ≢ "") owners
unfolding get_app_scope_owners lookup
no_owners owners e = cc

get_handled_recipients-All_example :
    All (λ r. r ≢ "") (get_handled_recipients ("a@b" ∷ application_scope_owner ∷ []) [])
get_handled_recipients-All_example =
    get_handled_recipients-All {P = λ r. r ≢ ""} ("a@b" ∷ application_scope_owner ∷ []) []
      ((λ h. differs), ((λ h. placeholder_differs), tt)) no_owners

abbrev issue_services : IssueServices
issue_services = record {
  get_active_sprints = λ client url board. ok [];
  get_project = λ client url key. ok none;
  get_issue_type = λ project name. none;
  find_users = λ client url name. err "offline";
  get_users = λ client url method path. err "offline";
  create = λ client url issue. record { body = none; issue = err "offline" };
}

-- Two fields, one of each of two types.
abbrev meta : MetaIssueType
meta = record {
  all_fields = ("Summary", "summary") ∷ ("Priority", "priority") ∷ [];
  string_at = λ path.
      if path == "summary/schema/type"
      then ok "string"
      else if path == "priority/schema/type"
      then ok "Priority"
      else err "no such key";
}

abbrev config : Dict String
config = ("Summary", "scan of alpine") ∷ ("Priority", "High") ∷ []

abbrev client : Transport
client = bearer "token" true

abbrev project : MetaProject
project = record { name = "P"; id = "1" }

filled :
    init_issue issue_services client "https://jira" true project meta config
    ≡ ok (("summary", text "scan of alpine") ∷ ("priority", priority "High") ∷ [])
unfolding init_issue lookup insert to_lower
filled = refl

apart : Apart issue_services client "https://jira" true project meta config
unfolding lookup
apart = ((λ e. ground (arith, e, eq_iff "priority" "summary"), tt), (tt, tt))

init_issue-IsFilled_example :
    All
      (λ e.
        IsFilled issue_services client "https://jira" true project meta
          (("summary", text "scan of alpine") ∷ ("priority", priority "High") ∷ [])
          e.0
          e.1)
      config
init_issue-IsFilled_example =
    init_issue-IsFilled issue_services client "https://jira" true project meta config
      (("summary", text "scan of alpine") ∷ ("priority", priority "High") ∷ []) filled apart

-- The first server of a domain refuses the mail, the second takes it.
abbrev smtp : Smtp
smtp = record {
  send_mail = λ log mail. if mail.server == "one:25" then some "busy" else none;
  lookup_mx = λ host. ok ("one" ∷ "two" ∷ []);
}

taken-send_via_mx_servers_example :
    taken smtp "a@b" (send_via_mx_servers smtp "me" "scan" "text" ("a@b" ∷ "c@b" ∷ []) [])
    ≤ occurrences "a@b" ("a@b" ∷ "c@b" ∷ []) + taken smtp "a@b" []
taken-send_via_mx_servers_example =
    taken-send_via_mx_servers smtp "a@b" "me" "scan" "text" ("a@b" ∷ "c@b" ∷ []) []

abbrev service_now : HttpServices
service_now = record {
  new_request = λ url. none;
  send = λ request. ok (record { status_code = 201; status = "201 Created"; body = ("", none) });
  base64 = λ text. text;
  quote = λ text. text;
}

abbrev table : ServiceNowOutput
table = record {
  name = "tickets";
  user = "u";
  password = "p";
  instance_name = "dev";
  table = "incident";
  layout_provider = none;
}

inserted :
    send_service_now (over service_now chat_services) html_provider table (("title", "t") ∷ [])
    ≡ none
unfolding send_service_now insert_record_to_table
inserted = refl

send_service_now-IsCreated_example :
    (body : String) × (◌≡◌ {A = Result String} (ok "{}") (ok body))
    × IsCreated service_now "dev" "incident" body
send_service_now-IsCreated_example =
    send_service_now-IsCreated service_now chat_services html_provider table (("title", "t") ∷ [])
      inserted
