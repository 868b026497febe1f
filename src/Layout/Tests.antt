-- ===== src/Layout/Tests.antt =====
-- A small scan in each layout.
use postee.Prelude.{
  String, true, false, List, [], ◌∷◌, Result, ok, err, Error, failed, ◌≡◌, ◌≢◌, ◌⊎◌, All, arith,
  eq_iff, refl, map, value_of,
}
use postee.Prelude.Int.{pos}
use postee.Prelude.Text.{split, Lacks}
use postee.Data.{ScanImageInfo, InfoResources, SlackBlock}
use postee.Db.Aggregator.{Content}
use postee.Msg.Value.{no_fields}
use postee.Outputs.Records.{slack_mrkdwn}
use postee.Layout.Total.{IsDone}
use postee.Layout.Html.{html_provider}
use postee.Layout.Vulnerabilities.{order, render_vulnerabilities}
use postee.Layout.Vulnerabilities.Rating.{filtered, render_vulnerabilities-filtered}
use postee.Layout.Legacy.{LegacyServices, to_scan_image, legacy_eval, legacy_aggregated_content}
use postee.Layout.Legacy.Batch.{split-legacy_aggregated_content}
use postee.Layout.Legacy.Total.{provider_of, legacy_eval-provider_of}

abbrev resources : List InfoResources
resources =
    record {
      vulnerabilities =
          record { name = "CVE-1"; version = "1"; fix_version = "2"; severity = "High" }
          ∷ record { name = "CVE-2"; version = "1"; fix_version = ""; severity = "unknown" }
          ∷ record { name = "CVE-3"; version = "1"; fix_version = ""; severity = "critical" }
          ∷ [];
      name = "openssl";
      version = "1";
    }
    ∷ []

abbrev a_scan : ScanImageInfo
a_scan = record {
  image = "alpine";
  registry = "docker";
  digest = "";
  previous_digest = "";
  disallowed = true;
  checks_performed = record { control = "max"; policy_name = "p"; failed = true } ∷ [];
  total = pos 3;
  critical = pos 1;
  high = pos 1;
  medium = pos 0;
  low = pos 0;
  negligible = pos 0;
  sensitive = pos 0;
  malware = pos 0;
  scan_sensitive_data = false;
  scan_malware = true;
  resources = resources;
  application_scope_owners = [];
  malwares = [];
  sensitive_data = [];
}

abbrev services : LegacyServices
services = record {
  marshal_fields = λ fs. ok "{}";
  unmarshal_scan = λ text. ok a_scan;
  show = λ v. "alpine";
  query_escape = λ text. text;
}

render_vulnerabilities-filtered_example :
    render_vulnerabilities html_provider resources ≡ filtered html_provider order resources
render_vulnerabilities-filtered_example = render_vulnerabilities-filtered html_provider resources

abbrev scan_at : String → Content
scan_at url = ("title", "t") ∷ ("url", url) ∷ []

there : (url : String) → url ≢ "" → value_of "url" (scan_at url) ≢ ""
unfolding value_of
there url n = n

no_breaks : All (Lacks b'\n') (map (value_of "url") (scan_at "a" ∷ scan_at "b" ∷ []))
unfolding value_of
no_breaks = ((refl, tt), ((refl, tt), tt))

a_differs : ◌≢◌ {A = String} "a" ""
a_differs e = ground (arith, e, eq_iff "a" "")

b_differs : ◌≢◌ {A = String} "b" ""
b_differs e = ground (arith, e, eq_iff "b" "")

split-legacy_aggregated_content_example :
    split
      (value_of "url"
        (legacy_aggregated_content services html_provider (scan_at "a" ∷ scan_at "b" ∷ [])))
      b'\n'
    ≡ map (value_of "url") (scan_at "a" ∷ scan_at "b" ∷ [])
split-legacy_aggregated_content_example =
    split-legacy_aggregated_content services html_provider (scan_at "a") (scan_at "b" ∷ [])
      (there "a" a_differs, (there "b" b_differs, tt)) no_breaks

abbrev marshal : SlackBlock → Result String
marshal block = ok "{}"

legacy_eval-provider_of_example :
    ((scan : ScanImageInfo) × (to_scan_image services (provider_of marshal slack_mrkdwn) no_fields
        ≡ ok scan)
      × IsDone (legacy_eval services (provider_of marshal slack_mrkdwn) no_fields "aqua"))
    ⊎ ((e : Error) × (to_scan_image services (provider_of marshal slack_mrkdwn) no_fields ≡ err e)
        × (legacy_eval services (provider_of marshal slack_mrkdwn) no_fields "aqua" ≡ failed e))
legacy_eval-provider_of_example =
    legacy_eval-provider_of services marshal slack_mrkdwn no_fields "aqua"
