-- ===== src/Outputs/Chat.antt =====
-- outputs/slack.go, teams.go, webhook.go, servicenow.go, stdout.go and message.go: one message to a service.
pub mod Created
use Prim.Native.String.{◌++◌, len}
use postee.Prelude.{
  ℕ, zero, suc, ◌-◌, ◌≤◌, ◌<◌, String, Option, none, some, List, [], ◌∷◌, Result, ok, err, Error,
  if◌then◌else◌, value_of, length, take, drop, ltb, leb, ◌≡◌, ◌⊎◌, inl, inr, refl, arith,
  Bool-cases, Option-cases,
}
use postee.Prelude.Text.{has_prefix, trim_suffix, trim_prefix, replace_all, split}
use postee.Db.Aggregator.{Content}
use postee.Layout.Provider.{LayoutProvider}
use postee.Outputs.Records.{SlackOutput, TeamsOutput, WebhookOutput, ServiceNowOutput}

links : String → LayoutProvider → List String → String
links server p [] = ""
links server p (link ∷ rest) = p.p (p.a (server ++ link) link) ++ links server p rest

unfoldable pub build_short_message : String → String → LayoutProvider → String
unfolding links
build_short_message server urls p =
    p.p "This message is too long to display here. Please visit the link to read the content."
    ++ links server p (split urls b'\n')

unfoldable pub clear_slack_text : String → String
clear_slack_text text =
    replace_all (replace_all (replace_all text b'&' "&amp;") b'<' "&lt;") b'>' "&gt;"

unfoldable pub build_slack_block : (title body : String) → String
build_slack_block title body = "{\"blocks\":[" ++ (title ++ (body ++ "]}"))

-- A body: without the comma at its end, escaped, and in brackets.
unfoldable pub slack_body : String → String
unfolding clear_slack_text
slack_body description =
    let body : String = clear_slack_text (trim_suffix description ",") in
    if has_prefix body "[" then body else "[" ++ (body ++ "]")

-- JSON and the HTTP calls: what each answers to a body after the bodies before it, the last one first.
pub record ChatServices (Block : Type 0) : Type 0 where
  pub unmarshal_blocks : String → Result (List Block)
  pub marshal_blocks : List Block → String
  pub escape : String → String
  pub post : List (String × String) → String → String → Option Error
  pub insert_record : (user password instance_name table body : String) → Option Error
  pub marshal_record : (short_description work_notes : String) → Result String
  pub http_post : (url body : String) → Result (ℕ × Result String)

drop-all : {A : Type 0} (xs : List A) (n : ℕ) → length xs ≤ n → drop n xs ≡ []
drop-all [] zero h = refl
drop-all [] (suc n) h = refl
drop-all (x ∷ xs) zero h = absurd (omega (arith, h))
drop-all (x ∷ xs) (suc n) h = drop-all xs n (omega (arith, h))

-- `print` stands for fmt.Fprintf to the standard output.
unfoldable pub send_stdout : (print : String → Option Error) → Content → Option Error
send_stdout print content = print (value_of "description" content)

module _ {Block : Type 0} (services : ChatServices Block) (provider : LayoutProvider) where
  -- What a call of a service leaves: its error and the bodies sent, by URL, the last one first.
  abbrev pub Sending : Type 0
  Sending = Option Error × List (String × String)

  abbrev send_to_url : String → String → List (String × String) → Sending
  send_to_url url body log = (services.post log url body, (url, body) ∷ log)

  abbrev unless_error : Sending → (List (String × String) → Sending) → Sending
  unless_error (some e, log) next = (some e, log)
  unless_error (none, log) next = next log

  -- The text between the brackets of an array.
  abbrev inside : String → String
  inside text = trim_suffix (trim_prefix text "[") "]"

  -- The loop over the blocks, at most 49 at a time, on fuel.
  unfoldable pub send_chunks :
      ℕ → (url title : String) → List Block → List (String × String) → Option Sending
  send_chunks zero url title blocks log = none
  send_chunks (suc n) url title [] log = some (none, log)
  send_chunks (suc n) url title (b ∷ blocks) log =
      let sent : Sending =
        send_to_url url
          (build_slack_block title (inside (services.marshal_blocks (take 49 (b ∷ blocks))))) log in
      let later = send_chunks n url title (drop 49 (b ∷ blocks)) sent.1 in
      elim sent.0 [ some e ↦ some sent | none ↦ later ]

  abbrev loop_ended : Option Sending → Sending
  loop_ended none = (some "", [])
  loop_ended (some r) = r

  abbrev send_blocks :
      SlackOutput → Content → Result (List Block) → List (String × String) → Sending
  send_blocks o content (err e) log = (some e, log)
  send_blocks o content (ok blocks) log =
      let title : String = clear_slack_text (provider.title_h2 (value_of "title" content)) in
      if leb 49 (length blocks)
      then send_to_url o.url
          (build_slack_block title
            (build_short_message o.aqua_server (value_of "url" content) provider))
          log
      else loop_ended (send_chunks (suc (length blocks)) o.url title blocks log)

  unfoldable pub send_slack : SlackOutput → Content → List (String × String) → Sending
  unfolding send_chunks build_short_message slack_body
  send_slack o content log =
      send_blocks o content
        (services.unmarshal_blocks (slack_body (value_of "description" content))) log

  unfoldable pub send_teams : TeamsOutput → Content → List (String × String) → Sending
  unfolding build_short_message
  send_teams o content log =
      let body : String =
        if ltb 18000 (len (value_of "description" content))
        then build_short_message o.aqua_server (value_of "url" content) provider
        else value_of "description" content in
      send_to_url o.webhook (provider.title_h2 (value_of "title" content) ++ services.escape body)
        log

  abbrev answered_body : ℕ → Result String → Option Error
  answered_body status (err e) = some e
  answered_body status (ok body) =
      if ltb 200 status then some body else if ltb status 200 then some body else none

  abbrev answered : Result (ℕ × Result String) → Option Error
  answered (err e) = some e
  answered (ok (status, body)) = answered_body status body

  unfoldable pub send_webhook : WebhookOutput → Content → Option Error
  send_webhook o content = answered (services.http_post o.url (value_of "description" content))

  abbrev insert_body : ServiceNowOutput → Result String → Option Error
  insert_body o (err e) = some e
  insert_body o (ok body) = services.insert_record o.user o.password o.instance_name o.table body

  unfoldable pub send_service_now : ServiceNowOutput → Content → Option Error
  send_service_now o content = insert_body o (
      services.marshal_record (value_of "title" content)
        ("[code]" ++ (value_of "description" content ++ "[/code]")))

  abbrev AtMostOne : String → List (String × String) → List (String × String) → Type 0
  AtMostOne url log log' = (log' ≡ log) ⊎ ((body : String) × (log' ≡ (url, body) ∷ log))

  one_chunk :
      (n : ℕ) (url title : String) (b : Block) (blocks : List Block) (log : List (String × String))
      → length blocks < 49 - 1
      → AtMostOne url log (loop_ended (send_chunks (suc (suc n)) url title (b ∷ blocks) log)).1
  unfolding send_chunks
  one_chunk n url title b blocks log h =
      elim (Option-cases (
        services.post log url
          (build_slack_block title (inside (services.marshal_blocks (b ∷ take 48 blocks)))))) [
            | inl e ↦ rw e (rw (drop-all blocks 48 (omega (arith, h))) (inr (_, refl)))
            | inr (x, e) ↦ rw e (inr (_, refl))
          ]

  send_blocks-AtMostOne :
      (o : SlackOutput) (content : Content) (r : Result (List Block)) (log : List (String × String))
      → AtMostOne o.url log (send_blocks o content r log).1
  unfolding send_chunks
  send_blocks-AtMostOne o content (err e) log = inl refl
  send_blocks-AtMostOne o content (ok []) log = inl refl
  send_blocks-AtMostOne o content (ok (b ∷ blocks)) log =
      elim (Bool-cases (leb 49 (length (b ∷ blocks)))) [
        | inl e ↦ rw e (inr (_, refl))
        | inr e ↦ rw e (one_chunk (length blocks) o.url _ b blocks log (ground (arith, e)))
      ]

  -- A message makes at most one call of Slack: the loop over the blocks ends in its first round, since a
  -- message of 49 blocks or more is replaced by the short one.
  pub send_slack-once :
      (o : SlackOutput) (content : Content) (log : List (String × String))
      → ((send_slack o content log).1 ≡ log)
        ⊎ ((body : String) × ((send_slack o content log).1 ≡ (o.url, body) ∷ log))
  unfolding send_slack
  send_slack-once o content log =
      send_blocks-AtMostOne o content
        (services.unmarshal_blocks (slack_body (value_of "description" content))) log
