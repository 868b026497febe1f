-- ===== src/Layout/Vulnerabilities.antt =====
-- layout/vulnerabilities.go, assurances.go, malware.go and sensitive.go: the tables of a scan.
pub mod Rating
use Prim.Native.String.{◌++◌}
use postee.Prelude.{
  ℕ, suc, String, Option, none, some, List, [], ◌∷◌, map, Dict, lookup, insert, Outcome, done,
  failed, panicked, ◌==◌, if◌then◌else◌,
}
use postee.Prelude.Int.{ℤ}
use postee.Prelude.Text.{to_lower, itoa_nat}
use postee.Data.{
  InfoResources, Vulnerability, ControlCheck, MalwareData, SensitiveData, clear_field,
}
use postee.Layout.Provider.{
  LayoutProvider, critical_color, high_color, medium_color, low_color, negligible_color,
}

-- What follows a table that was written.
abbrev pub after_table : Outcome String → (String → Outcome String) → Outcome String
after_table (done text) k = k text
after_table (failed e) k = failed e
after_table panicked k = panicked

abbrev or_none : String → String
or_none text = if text == "" then "none" else text

-- A row of the table of vulnerabilities.
abbrev pub vulnerability_row : InfoResources → Vulnerability → List String
vulnerability_row r v =
    or_none v.name
    ∷ or_none r.name
    ∷ or_none r.version
    ∷ (if v.fix_version == "" then "none" else clear_field v.fix_version)
    ∷ []

-- rating[key] of a map of slices; a missing slice is empty.
abbrev pub rows_in : Option (List (List String)) → List (List String)
rows_in none = []
rows_in (some rows) = rows

abbrev pub rated : String → Dict (List (List String)) → List (List String)
rated key rating = rows_in (lookup key rating)

-- append(rows, row)
append_row : List (List String) → List String → List (List String)
append_row [] row = row ∷ []
append_row (x ∷ rows) row = x ∷ append_row rows row

rate_vulnerabilities :
    InfoResources → List Vulnerability → Dict (List (List String)) → Dict (List (List String))
rate_vulnerabilities r [] rating = rating
rate_vulnerabilities r (v ∷ vs) rating = rate_vulnerabilities r vs (
    insert (to_lower v.severity)
      (append_row (rated (to_lower v.severity) rating) (vulnerability_row r v)) rating)

unfoldable pub rate_resources :
    List InfoResources → Dict (List (List String)) → Dict (List (List String))
unfolding rate_vulnerabilities append_row
rate_resources [] rating = rating
rate_resources (r ∷ rs) rating = rate_resources rs (rate_vulnerabilities r r.vulnerabilities rating)

-- The severities in their order, each with what strings.Title makes of it.
abbrev pub order : List (String × String)
order =
    ("critical", "Critical")
    ∷ ("high", "High")
    ∷ ("medium", "Medium")
    ∷ ("low", "Low")
    ∷ ("negligible", "Negligible")
    ∷ []

module _ (provider : LayoutProvider) where
  unfoldable pub severity_table : String → List (List String) → Outcome String
  severity_table title rows =
      after_table
        (provider.table (
          ("Vulnerability ID" ∷ "Resource name" ∷ "Installed version" ∷ "Fix version" ∷ []) ∷ rows))
        λ table. done (provider.title_h3 (title ++ " severity vulnerabilities") ++ table)

  render_severity : String → Option (List (List String)) → Outcome String
  render_severity title none = done ""
  render_severity title (some rows) = severity_table title rows

  render_severities : List (String × String) → Dict (List (List String)) → Outcome String
  render_severities [] rating = done ""
  render_severities ((key, title) ∷ rest) rating =
      after_table (render_severity title (lookup key rating))
        λ text. after_table (render_severities rest rating) λ later. done (text ++ later)

  unfoldable pub render_vulnerabilities : List InfoResources → Outcome String
  unfolding render_severities render_severity severity_table
  render_vulnerabilities resources = render_severities order (rate_resources resources [])

  -- The table of two rows: the source reads five cells of the second one, and panics without them. Its
  -- guard is never met, since an array of two rows has two.
  unfoldable pub vulnerabilities_table : List String → List String → Outcome String
  vulnerabilities_table names (c ∷ h ∷ m ∷ l ∷ n ∷ rest) = provider.table (
      names
      ∷ (provider.colour_text c critical_color
          ∷ provider.colour_text h high_color
          ∷ provider.colour_text m medium_color
          ∷ provider.colour_text l low_color
          ∷ provider.colour_text n negligible_color
          ∷ [])
      ∷ [])
  vulnerabilities_table names _ = panicked

  abbrev pub status : ControlCheck → String
  status check = if check.failed then "FAIL" else "PASS"

  unfoldable pub assurance_rows : ℕ → List ControlCheck → List (List String)
  assurance_rows i [] = []
  assurance_rows i (check ∷ checks) =
      (itoa_nat (suc i) ∷ check.control ∷ check.policy_name ∷ status check ∷ [])
      ∷ assurance_rows (suc i) checks

  unfoldable pub render_assurances : List ControlCheck → Outcome String
  unfolding assurance_rows
  render_assurances checks =
      provider.table (("#" ∷ "Control" ∷ "Policy Name" ∷ "Status" ∷ []) ∷ assurance_rows 0 checks)

  unfoldable pub malware_rows : ℕ → List MalwareData → List (List String)
  malware_rows i [] = []
  malware_rows i (m ∷ ms) =
      (itoa_nat i ∷ m.malware ∷ m.hash ∷ m.path ∷ []) ∷ malware_rows (suc i) ms

  unfoldable pub render_malware : List MalwareData → Outcome String
  unfolding malware_rows
  render_malware malware =
      provider.table (("#" ∷ "Malware" ∷ "Hash" ∷ "Path" ∷ []) ∷ malware_rows 0 malware)

  unfoldable pub render_sensitive_data : List SensitiveData → Outcome String
  render_sensitive_data sensitive = provider.table (
      ("File name" ∷ "Path" ∷ "Type" ∷ "Hash" ∷ [])
      ∷ map (λ (s : SensitiveData). s.filename ∷ s.path ∷ s.type ∷ s.hash ∷ []) sensitive)
