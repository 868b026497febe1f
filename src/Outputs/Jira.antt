-- ===== src/Outputs/Jira.antt =====
-- outputs/jira.go: the fields of an issue.
pub mod Types
pub mod Filling
pub mod Sending
use Prim.Native.String.{◌++◌}
use postee.Prelude.{
  ℕ, String, Bool, true, false, Option, none, some, List, [], ◌∷◌, Result, ok, err, Error, Outcome,
  done, failed, panicked, Dict, lookup, insert, value_of, ◌==◌, if◌then◌else◌, is_empty, eqb,
  length,
}
use postee.Prelude.Int.{ℤ, pos, ltb_ℤ, sub_ℕ}
use postee.Prelude.Text.{split, to_lower, atoi, itoa}
use postee.Db.Aggregator.{Content}
use postee.Outputs.Records.{JiraApi, JiraServices, Transport, create_client, is_server_jira}
use postee.Outputs.Recipients.{get_handled_recipients}

-- What a field of an issue holds, by its type.
pub data FieldValue : Type 0 where
  component : String → FieldValue
  options : List String → FieldValue
  number : ℤ → FieldValue
  texts : List String → FieldValue
  text : String → FieldValue
  project : (name id : String) → FieldValue
  priority : String → FieldValue
  user : (account : String) → FieldValue
  issue_type : String → FieldValue
  option_value : String → FieldValue
  versions : List String → FieldValue

-- jira.MetaProject, and jira.MetaIssueType by what is asked of it: the keys of its fields by their
-- names, and the texts at paths of its description.
pub record MetaProject : Type 0 where
  pub name : String
  pub id : String

pub record MetaIssueType : Type 0 where
  pub all_fields : Dict String
  pub string_at : String → Result String

pub record Issue : Type 0 where
  pub unknowns : Dict FieldValue
  pub labels : List String
  pub fix_versions : List String

-- The answer of Issue.Create: the body, if there is a response, and the id of the issue or the error.
pub record Created : Type 0 where
  pub body : Option String
  pub issue : Result String

-- go-jira at a client, which is its transport and URL. A search for users gives the status of its
-- response and the users.
pub record IssueServices : Type 0 where
  pub get_active_sprints : Transport → String → ℤ → Result (List ℤ)
  pub get_project : Transport → String → String → Result (Option MetaProject)
  pub get_issue_type : MetaProject → String → Option MetaIssueType
  -- client.User.Find, of Jira in the cloud
  pub find_users : Transport → String → String → Result (ℕ × List String)
  -- client.NewRequest by method and path, and client.Do into a list of users
  pub get_users : Transport → (url method path : String) → Result (ℕ × List String)
  pub create : Transport → String → Issue → Created

-- One field more, a field left out, or an end with an error.
pub data Step : Type 0 where
  sets : FieldValue → Step
  skips : Step
  stops : Error → Step

abbrev pub first_user : Result (ℕ × List String) → Step
first_user (err e) = skips
first_user (ok (status, [])) = skips
first_user (ok (status, account ∷ rest)) = if eqb status 200 then sets (user account) else skips

abbrev pub sprint_or_text : String → String → Step
sprint_or_text key value =
    if key == "Sprint"
    then (elim (atoi value).1 [ none ↦ sets (number (atoi value).0) | some e ↦ stops e ])
    else sets (texts (value ∷ []))

abbrev pub array_of : String → String → Result String → Step
array_of key value (err e) = stops e
array_of key value (ok elem_type) =
    if elem_type == "component"
    then sets (component value)
    else if elem_type == "option"
    then sets (options (split value b','))
    else sprint_or_text key value

module _ (services : IssueServices) (client : Transport) (url : String) (use_srv_api : Bool)
    (meta_project : MetaProject) (meta : MetaIssueType) where
  unfoldable pub find_user_on_jira_server : String → Result (ℕ × List String)
  find_user_on_jira_server email =
      services.get_users client url "GET" ("/rest/api/2/user/search?username=" ++ email)

  abbrev pub users_named : String → Result (ℕ × List String)
  users_named value =
      if use_srv_api then find_user_on_jira_server value else services.find_users client url value

  -- The switch on the type of a field, in lower case; an unknown one is told as it was written.
  unfoldable pub value_of_type : (key value jira_key value_type written : String) → Step
  unfolding find_user_on_jira_server
  value_of_type key value jira_key value_type written =
      if value_type == "array"
      then array_of key value (meta.string_at (jira_key ++ "/schema/items"))
      else if value_type == "number"
      then sets (number (atoi value).0)
      else if value_type == "string"
      then sets (text value)
      else if value_type == "date"
      then sets (text value)
      else if value_type == "datetime"
      then sets (text value)
      else if value_type == "any"
      then sets (text value)
      else if value_type == "project"
      then sets (project meta_project.name meta_project.id)
      else if value_type == "priority"
      then sets (priority value)
      else if value_type == "user"
      then first_user (users_named value)
      else if value_type == "issuetype"
      then sets (issue_type value)
      else if value_type == "option"
      then sets (option_value value)
      else stops ("Unknown issue type encountered: " ++ (written ++ (" for " ++ key)))

  abbrev pub typed : (key value jira_key : String) → Result String → Step
  typed key value jira_key (err e) = stops e
  typed key value jira_key (ok value_type) =
      value_of_type key value jira_key (to_lower value_type) value_type

  -- One round of the loop for a field whose key is found.
  unfoldable pub field_step : (key value jira_key : String) → Step
  unfolding value_of_type
  field_step key value jira_key =
      typed key value jira_key (meta.string_at (jira_key ++ "/schema/type"))

  -- Goes on with the unknowns after a round.
  abbrev pub continued :
      String
      → Step
      → Dict FieldValue
      → (Dict FieldValue → Result (Dict FieldValue))
      → Result (Dict FieldValue)
  continued jira_key (sets v) unknowns k = k (insert jira_key v unknowns)
  continued jira_key skips unknowns k = k unknowns
  continued jira_key (stops e) unknowns k = err e

  abbrev pub round_of :
      (key value : String)
      → Option String
      → Dict FieldValue
      → (Dict FieldValue → Result (Dict FieldValue))
      → Result (Dict FieldValue)
  round_of key value none unknowns k =
      err ("key " ++ (key ++ " is not found in the list of fields"))
  round_of key value (some jira_key) unknowns k =
      continued jira_key (field_step key value jira_key) unknowns k

  unfoldable pub fill_fields : Dict String → Dict FieldValue → Result (Dict FieldValue)
  unfolding field_step
  fill_fields [] unknowns = ok unknowns
  fill_fields ((key, value) ∷ rest) unknowns =
      round_of key value (lookup key meta.all_fields) unknowns (fill_fields rest)

  -- Go goes through the configured fields in any order; here in the order in which they stand.
  unfoldable pub init_issue : Dict String → Result (Dict FieldValue)
  unfolding fill_fields
  init_issue fields_config = fill_fields fields_config []
