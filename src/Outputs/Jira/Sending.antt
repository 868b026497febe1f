-- ===== src/Outputs/Jira/Sending.antt =====
-- outputs/jira.go: Send, from a message to an issue.
use Prim.Native.String.{◌++◌}
use postee.Prelude.{
  String, Option, none, some, List, [], ◌∷◌, Result, ok, err, Outcome, done, failed, panicked, Dict,
  insert, value_of, ◌==◌, if◌then◌else◌, length,
}
use postee.Prelude.Int.{ℤ, pos, ltb_ℤ}
use postee.Prelude.Text.{itoa}
use postee.Db.Aggregator.{Content}
use postee.Outputs.Records.{JiraApi, JiraServices, Transport, create_client, is_server_jira}
use postee.Outputs.Recipients.{get_handled_recipients}
use postee.Outputs.Jira.{
  FieldValue, versions, MetaProject, MetaIssueType, Created, IssueServices, init_issue,
}

-- The sprint that is kept: with several active ones, their number less one.
unfoldable pub take_sprint : List ℤ → JiraApi → JiraApi
take_sprint [] ctx = ctx
take_sprint (id ∷ []) ctx = record ctx { sprint_id = id }
take_sprint (id ∷ other ∷ rest) ctx = record ctx { sprint_id = pos (length (other ∷ rest)) }

abbrev put_all : Dict String → Dict String → Dict String
put_all [] config = config
put_all ((k, v) ∷ rest) config = put_all rest (insert k v config)

abbrev first_assignee : List String → String → String
first_assignee [] default = default
first_assignee (a ∷ rest) default = a

module _ (jira_services : JiraServices) (services : IssueServices) where
  abbrev sprints_found : Result (List ℤ) → JiraApi → JiraApi
  sprints_found (err e) ctx = ctx
  sprints_found (ok ids) ctx = take_sprint ids ctx

  unfoldable pub fetch_sprint_id : Transport → JiraApi → JiraApi
  unfolding take_sprint
  fetch_sprint_id client ctx =
      sprints_found (services.get_active_sprints client ctx.url ctx.board_id) ctx

  -- The fields that are configured: the six of every issue, the sprint, and the custom ones, which
  -- may replace them.
  unfoldable pub fields_config : JiraApi → (assignee : String) → Dict String
  fields_config ctx assignee =
      let fixed : Dict String =
        ("Issue Type", ctx.issuetype)
        ∷ ("Project", ctx.project_key)
        ∷ ("Priority", ctx.priority)
        ∷ ("Assignee", assignee)
        ∷ ("Description", ctx.description)
        ∷ ("Summary", ctx.summary)
        ∷ [] in
      put_all ctx.unknowns
        (if ltb_ℤ (pos 0) ctx.sprint_id then insert "Sprint" (itoa ctx.sprint_id) fixed else fixed)

  abbrev with_versions : List String → Dict FieldValue → Dict FieldValue
  with_versions [] unknowns = unknowns
  with_versions (v ∷ vs) unknowns = insert "versions" (versions (v ∷ vs)) unknowns

  -- The response is closed before the error is looked at; there may be none.
  abbrev opened : Created → Outcome String
  opened c = elim c.body [
    | none ↦ panicked
    | some body ↦ (elim c.issue [ ok id ↦ done id | err e ↦ failed body ])
  ]

  abbrev open_issue : Transport → JiraApi → Result (Dict FieldValue) → Outcome String
  open_issue client ctx (err e) = failed e
  open_issue client ctx (ok unknowns) = opened (
      services.create client ctx.url (record {
        unknowns = with_versions ctx.affects_versions unknowns;
        labels = ctx.labels;
        fix_versions = ctx.fix_versions;
      }))

  abbrev with_issue_type :
      Transport → JiraApi → String → MetaProject → Option MetaIssueType → Outcome String
  with_issue_type client ctx assignee meta_project none =
      failed ("Failed to create meta issue type: could not find issuetype " ++ ctx.issuetype)
  with_issue_type client ctx assignee meta_project (some meta) = open_issue client ctx (
      init_issue services client ctx.url (is_server_jira jira_services ctx.url) meta_project meta
        (fields_config ctx assignee))

  -- The summary and the description are kept once the meta data is there.
  abbrev told : JiraApi → Content → JiraApi
  told ctx content = record ctx {
    summary = value_of "title" content;
    description = value_of "description" content;
  }

  abbrev assignee_of : JiraApi → Content → String
  assignee_of ctx content = first_assignee (get_handled_recipients ctx.assignee content) ctx.user

  abbrev typed_issue :
      Transport → JiraApi → Content → MetaProject → Option MetaIssueType → Outcome String × JiraApi
  typed_issue client ctx content meta_project none =
      (with_issue_type client ctx "" meta_project none, ctx)
  typed_issue client ctx content meta_project (some meta) = (
    with_issue_type client (told ctx content) (assignee_of ctx content) meta_project (some meta),
    told ctx content,
  )

  abbrev with_project :
      Transport → JiraApi → Content → Result (Option MetaProject) → Outcome String × JiraApi
  with_project client ctx content (err e) =
      (failed ("Failed to create meta project: failed to get create meta : " ++ e), ctx)
  with_project client ctx content (ok none) = (
    failed ("Failed to create meta project: could not find project with key " ++ ctx.project_key),
    ctx,
  )
  with_project client ctx content (ok (some meta_project)) =
      typed_issue client ctx content meta_project
        (services.get_issue_type meta_project ctx.issuetype)

  abbrev with_client : JiraApi → Content → Result Transport → Outcome String × JiraApi
  with_client ctx content (err e) = (failed e, ctx)
  with_client ctx content (ok client) =
      let ready : JiraApi = if ctx.board_type == "scrum" then fetch_sprint_id client ctx else ctx in
      with_project client ready content (services.get_project client ready.url ready.project_key)

  -- Send: the id of the issue that was opened.
  unfoldable pub send_jira : Content → JiraApi → Outcome String × JiraApi
  unfolding fetch_sprint_id fields_config
  send_jira content ctx = with_client ctx content (create_client jira_services ctx)
