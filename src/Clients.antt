-- ===== src/Clients.antt =====
-- servicenow/insert_table.go, slack/sendtoslack.go and teams/teams_requests.go: the HTTP calls that the
-- outputs make. net/http, base64 and the quoting of `%q` are parameters.
use Prim.Native.String.{[], ◌∷◌, ◌++◌}
use Prim.Native.Char.{code}
use postee.Prelude.{
  ℕ, String, Option, none, some, List, Result, ok, err, Error, Outcome, done, failed, panicked,
  Dict, eqb, if◌then◌else◌,
}
use postee.Utils.Environment.{prn_log_response}

pub record HttpRequest : Type 0 where
  pub method : String
  pub url : String
  pub headers : Dict String
  pub body : String

-- The body as far as it could be read, with the error of the reading.
pub record HttpResponse : Type 0 where
  pub status_code : ℕ
  pub status : String
  pub body : String × Option Error

pub record HttpServices : Type 0 where
  -- http.NewRequest refuses a URL that it cannot parse.
  pub new_request : (url : String) → Option Error
  pub send : HttpRequest → Result HttpResponse
  pub base64 : String → String
  pub quote : String → String

abbrev pub table_url : (instance_name table : String) → String
table_url instance_name table =
    "https://" ++ (instance_name ++ ("." ++ ("service-now.com/api/now/table/" ++ table)))

module _ (http : HttpServices) where
  open http use {new_request, send, base64, quote}

  abbrev json_type : String × String
  json_type = ("Content-Type", "application/json")

  abbrev pub record_request : (user password url content : String) → HttpRequest
  record_request user password url content = record {
    method = "POST";
    url = url;
    headers =
        List.◌∷◌ json_type
          (List.◌∷◌ ("Authorization", "Basic " ++ base64 (user ++ (":" ++ password))) List.[]);
    body = content;
  }

  abbrev record_answer : Result HttpResponse → Option Error
  record_answer (err e) = some e
  record_answer (ok resp) =
      if eqb resp.status_code 201
      then none
      else some (
          "InsertRecordToTable Error: "
          ++ (resp.status ++ ("\nHeader: " ++ prn_log_response resp.body)))

  -- ServiceNow
  unfoldable pub insert_record_to_table :
      (user password instance_name table content : String) → Option Error
  unfolding prn_log_response
  insert_record_to_table user password instance_name table content =
      elim (new_request (table_url instance_name table)) [
        | some e ↦ some e
        | none ↦
            record_answer
              (send (record_request user password (table_url instance_name table) content))
      ]

  abbrev slack_failure : String → String × Option Error → Option Error
  slack_failure status (body, some e) = some e
  slack_failure status (body, none) =
      some ("Slack API error: Status: " ++ (quote status ++ (". Message: " ++ quote body)))

  abbrev slack_answer : Result HttpResponse → Option Error
  slack_answer (err e) = some e
  slack_answer (ok resp) =
      if eqb resp.status_code 200 then none else slack_failure resp.status resp.body

  -- Slack; http.Post makes the request too, and its error is that of the call.
  unfoldable pub post_to_slack : (url content : String) → Option Error
  post_to_slack url content = elim (new_request url) [
    | some e ↦ some e
    | none ↦ slack_answer (
        send (record {
          method = "POST";
          url = url;
          headers = List.◌∷◌ json_type List.[];
          body = content;
        }))
  ]

  -- `message[0]` of an empty body panics.
  abbrev teams_body : String → Outcome (Unit {0})
  teams_body [] = panicked
  teams_body (c ∷ rest) =
      if eqb (code c) b'1' then done tt else failed ("Teams Body Error: " ++ quote (c ∷ rest))

  abbrev teams_answer : Result HttpResponse → Outcome (Unit {0})
  teams_answer (err e) = failed e
  teams_answer (ok resp) =
      if eqb resp.status_code 200
      then teams_body resp.body.0
      else failed ("InsertRecordToTable Error: " ++ (quote resp.status ++ (". " ++ resp.body.0)))

  abbrev teams_message : String → String
  teams_message content = "{\"text\":\"" ++ (content ++ "\"}")

  -- Teams
  unfoldable pub create_message_by_webhook : (webhook content : String) → Outcome (Unit {0})
  create_message_by_webhook webhook content = elim (new_request webhook) [
    | some e ↦ failed e
    | none ↦ teams_answer (
        send (record {
          method = "POST";
          url = webhook;
          headers = List.◌∷◌ json_type List.[];
          body = teams_message content;
        }))
  ]
