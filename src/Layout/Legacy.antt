-- ===== src/Layout/Legacy.antt =====
-- formatting/eval.go: the legacy templates.
pub mod Batch
pub mod Total
use Prim.Native.String.{◌++◌}
use postee.Prelude.{
  ℕ, String, Bool, true, Option, none, some, List, [], ◌∷◌, Outcome, done, failed, panicked, Result,
  ok, err, if◌then◌else◌, is_empty, value_of, ◌==◌,
}
use postee.Prelude.Text.{join}
use postee.Db.Aggregator.{Content}
use postee.Data.{ScanImageInfo}
use postee.Msg.Value.{Value, null, str, Fields, get_field}
use postee.Msg.World.{Inpteval}
use postee.Layout.Provider.{LayoutProvider}
use postee.Layout.Ticket.{gen_ticket_description}

-- encoding/json, fmt and net/url, as far as a legacy template uses them.
pub record LegacyServices : Type 0 where
  pub marshal_fields : Fields → Result String
  pub unmarshal_scan : String → Result ScanImageInfo
  pub show : Option Value → String
  pub query_escape : String → String

-- The builders of BuildAggregatedContent, and the owners.
pub record Gathered : Type 0 where
  pub descr : String
  pub urls : String
  pub owners : List String

-- append(owners, owner)
append_owner : List String → String → List String
append_owner [] owner = owner ∷ []
append_owner (x ∷ owners) owner = x ∷ append_owner owners owner

module _ (services : LegacyServices) (provider : LayoutProvider) where
  abbrev described : String → String → Outcome String → Outcome Content
  described title url (done text) =
      done (("title", title) ∷ ("description", text) ∷ ("url", url) ∷ [])
  described title url (failed e) = failed e
  described title url panicked = panicked

  abbrev scan_content : Fields → String → Result ScanImageInfo → Outcome Content
  scan_content in_ server_url (err e) = failed e
  scan_content in_ server_url (ok scan) =
      let url : String =
        server_url ++ (scan.registry ++ ("/" ++ services.query_escape scan.image)) in
      described (services.show (get_field "image" in_) ++ " vulnerability scan report") url
        (gen_ticket_description provider scan none url)

  -- Back to bytes, and read as a scan.
  unfoldable pub to_scan_image : Fields → Result ScanImageInfo
  to_scan_image in_ = elim (services.marshal_fields in_) [
    | err e ↦ err e
    | ok source ↦ services.unmarshal_scan source
  ]

  unfoldable pub legacy_eval : Fields → String → Outcome Content
  unfolding to_scan_image
  legacy_eval in_ server_url = scan_content in_ server_url (to_scan_image in_)

  gather_scan : Content → Gathered → Gathered
  gather_scan scan g = record {
    descr = g.descr ++ (provider.title_h1 (value_of "title" scan) ++ value_of "description" scan);
    urls = (if g.urls == "" then g.urls else g.urls ++ "\n") ++ value_of "url" scan;
    owners =
        if value_of "owners" scan == ""
        then g.owners
        else append_owner g.owners (value_of "owners" scan);
  }

  gather : List Content → Gathered → Gathered
  gather [] g = g
  gather (scan ∷ scans) g = gather scans (gather_scan scan g)

  abbrev owners_field : List String → Content
  owners_field owners = if is_empty owners then [] else ("owners", join owners ";") ∷ []

  unfoldable pub legacy_aggregated_content : List Content → Content
  unfolding gather gather_scan append_owner
  legacy_aggregated_content scans =
      let g : Gathered = gather scans (record { descr = ""; urls = ""; owners = [] }) in
      ("title", "Vulnerability scan report")
      ∷ ("description", g.descr)
      ∷ ("url", g.urls)
      ∷ owners_field g.owners

  abbrev pub legacy_inpteval : Inpteval
  unfolding legacy_eval legacy_aggregated_content
  legacy_inpteval = record {
    eval = legacy_eval;
    build_aggregated_content = λ scans. done (legacy_aggregated_content scans);
    is_aggregation_supported = true;
  }
