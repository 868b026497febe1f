-- ===== src/Layout/Ticket.antt =====
-- layout/ticketLayout.go: the description of a scan.
pub mod Total
use Prim.Native.String.{◌++◌}
use postee.Prelude.{
  ℕ, String, Bool, Option, none, some, List, [], ◌∷◌, Outcome, done, failed, panicked,
  if◌then◌else◌, is_empty,
}
use postee.Prelude.Int.{ℤ, pos, ltb_ℤ}
use postee.Prelude.Text.{itoa}
use postee.Data.{ScanImageInfo, InfoResources}
use postee.Layout.Provider.{LayoutProvider}
use postee.Layout.Vulnerabilities.{
  after_table, render_vulnerabilities, vulnerabilities_table, render_assurances, render_malware,
  render_sensitive_data,
}

module _ (provider : LayoutProvider) where
  unfoldable pub gen_test_description : String → String
  gen_test_description raw = provider.p raw

  -- One part of the description after the text before it.
  abbrev pub add : Outcome String → Outcome String → Outcome String
  add text part = after_table text λ before. after_table part λ more. done (before ++ more)

  -- A titled table, left out where there is nothing to show.
  titled : Bool → String → String → Outcome String → Outcome String
  titled absent before title table =
      if absent
      then done ""
      else after_table table λ text. done (before ++ (provider.title_h2 title ++ text))

  found : Bool → String → ℤ → Outcome String
  found asked what n = done (
      if asked
      then provider.p (if ltb_ℤ (pos 0) n then what ++ " found: Yes" else what ++ " found: No")
      else "")

  abbrev before_resources : Option ScanImageInfo → List InfoResources
  before_resources none = []
  before_resources (some scan) = scan.resources

  unfoldable pub gen_ticket_description :
      ScanImageInfo → Option ScanImageInfo → String → Outcome String
  unfolding titled found
  gen_ticket_description scan prev_scan link =
      let image = done (provider.p ("Image name: " ++ scan.image)) in
      let registry = add image (done (provider.p ("Registry: " ++ scan.registry))) in
      let compliance = add registry (
        done (
          provider.p
            (if scan.disallowed then "Image is non-compliant" else "Image is compliant"))) in
      let malware = add compliance (found scan.scan_malware "Malware" scan.malware) in
      let sensitive =
        add malware (found scan.scan_sensitive_data "Sensitive data" scan.sensitive) in
      let summary = add sensitive (
        vulnerabilities_table provider ("CRITICAL" ∷ "HIGH" ∷ "MEDIUM" ∷ "LOW" ∷ "NEGLIGIBLE" ∷ [])
          (itoa scan.critical
            ∷ itoa scan.high
            ∷ itoa scan.medium
            ∷ itoa scan.low
            ∷ itoa scan.negligible
            ∷ [])) in
      let assurances = add summary (
        titled (is_empty scan.checks_performed) "" "Assurance controls"
          (render_assurances provider scan.checks_performed)) in
      let vulnerabilities = add assurances (
        titled (is_empty scan.resources) "" "Found vulnerabilities"
          (render_vulnerabilities provider scan.resources)) in
      let discovered = add vulnerabilities (
        titled (is_empty (before_resources prev_scan)) "\n"
          "Discovered vulnerabilities from last scan"
          (render_vulnerabilities provider (before_resources prev_scan))) in
      let malwares =
        add discovered (
          titled (is_empty scan.malwares) "\n" "Malware" (render_malware provider scan.malwares)) in
      let data_found = add malwares (
        titled (is_empty scan.sensitive_data) "\n" "Sensitive Data"
          (render_sensitive_data provider scan.sensitive_data)) in
      add data_found (done (provider.p ("See more: " ++ provider.a link link)))
