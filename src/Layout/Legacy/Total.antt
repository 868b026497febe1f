-- ===== src/Layout/Legacy/Total.antt =====
-- formatting/eval.go: the ends of Eval with each of the layouts.
use postee.Prelude.{
  String, Result, ok, err, Error, Outcome, failed, ◌≡◌, ◌⊎◌, inl, inr, refl, Result-cases, none,
}
use postee.Data.{SlackBlock, ScanImageInfo}
use postee.Outputs.Records.{Layout, html, slack_mrkdwn, jira_layout}
use postee.Msg.Value.{Fields}
use postee.Layout.Provider.{LayoutProvider}
use postee.Layout.Html.{html_provider}
use postee.Layout.Jira.{jira_provider}
use postee.Layout.Slack.{slack_provider}
use postee.Layout.Total.{IsDone, TotalTables, html-TotalTables, jira-TotalTables}
use postee.Layout.Slack.Total.{slack-TotalTables}
use postee.Layout.Ticket.Total.{gen_ticket_description-IsDone}
use postee.Layout.Legacy.{LegacyServices, described, to_scan_image, legacy_eval}

-- The provider of a layout; `marshal` stands for encoding/json at a block of Slack.
abbrev pub provider_of : (marshal : SlackBlock → Result String) → Layout → LayoutProvider
provider_of marshal html = html_provider
provider_of marshal slack_mrkdwn = slack_provider marshal
provider_of marshal jira_layout = jira_provider

provider_of-TotalTables :
    (marshal : SlackBlock → Result String) (layout : Layout)
    → TotalTables (provider_of marshal layout)
provider_of-TotalTables marshal html = html-TotalTables
provider_of-TotalTables marshal slack_mrkdwn = slack-TotalTables marshal
provider_of-TotalTables marshal jira_layout = jira-TotalTables

described-IsDone :
    (services : LegacyServices) (provider : LayoutProvider) (title url : String)
    (o : Outcome String)
    → IsDone o
    → IsDone (described services provider title url o)
described-IsDone services provider title url o (text, e) = rw e (_, refl)

-- With each layout and every message, a legacy template gives a content where the message is a scan,
-- and else the error of its decoding; it never panics.
pub legacy_eval-provider_of :
    (services : LegacyServices) (marshal : SlackBlock → Result String) (layout : Layout)
    (fs : Fields) (server : String)
    → ((scan : ScanImageInfo) × (to_scan_image services (provider_of marshal layout) fs ≡ ok scan)
        × IsDone (legacy_eval services (provider_of marshal layout) fs server))
      ⊎ ((e : Error) × (to_scan_image services (provider_of marshal layout) fs ≡ err e)
          × (legacy_eval services (provider_of marshal layout) fs server ≡ failed e))
unfolding legacy_eval
legacy_eval-provider_of services marshal layout fs server =
    elim (Result-cases (to_scan_image services (provider_of marshal layout) fs)) [
      | inr (e, f) ↦ inr (e, f, rw (f, legacy_eval) refl)
      | inl (scan, f) ↦ inl (
        scan,
        f,
        rw (f, legacy_eval)
            (described-IsDone services (provider_of marshal layout) _ _ _
              (gen_ticket_description-IsDone (provider_of-TotalTables marshal layout) scan none _)),
      )
    ]
