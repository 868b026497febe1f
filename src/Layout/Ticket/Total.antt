-- ===== src/Layout/Ticket/Total.antt =====
-- layout/ticketLayout.go with a layout whose tables are written: the ends of the description.
use postee.Prelude.{
  ℕ, suc, String, Bool, true, false, Option, List, [], ◌∷◌, map, Outcome, All, All-append, ◌≡◌,
  refl, arith, length, ◌==◌, Bool-cases, inl, inr, ◌∙◌,
}
use postee.Data.{
  ScanImageInfo, InfoResources, Vulnerability, ControlCheck, MalwareData, SensitiveData,
}
use postee.Prelude.Text.{to_lower}
use postee.Layout.Provider.{LayoutProvider}
use postee.Layout.Total.{IsDone, TotalTables}
use postee.Layout.Vulnerabilities.{
  after_table, severity_table, order, render_vulnerabilities, vulnerabilities_table,
  render_assurances, assurance_rows, render_malware, malware_rows, render_sensitive_data,
}
use postee.Layout.Vulnerabilities.Rating.{
  rows_of, all_rows, shown, filtered, render_vulnerabilities-filtered,
}
use postee.Layout.Ticket.{add, titled, found, before_resources, gen_ticket_description}

-- A row of four cells.
abbrev HasFour : List String → Type 0
HasFour row = length row ≡ 4

rows_of-HasFour :
    (key : String) (r : InfoResources) (vs : List Vulnerability) → All HasFour (rows_of key r vs)
rows_of-HasFour key r [] = tt
rows_of-HasFour key r (v ∷ vs) = elim (Bool-cases (to_lower v.severity == key)) [
  | inl e ↦ rw e (refl, rows_of-HasFour key r vs)
  | inr e ↦ rw e (rows_of-HasFour key r vs)
]

all_rows-HasFour : (key : String) (rs : List InfoResources) → All HasFour (all_rows key rs)
all_rows-HasFour key [] = tt
all_rows-HasFour key (r ∷ rs) =
    All-append HasFour (rows_of key r r.vulnerabilities) (all_rows key rs)
      (rows_of-HasFour key r r.vulnerabilities) (all_rows-HasFour key rs)

assurance_rows-HasFour :
    (provider : LayoutProvider) (i : ℕ) (checks : List ControlCheck)
    → All HasFour (assurance_rows provider i checks)
unfolding assurance_rows
assurance_rows-HasFour provider i [] = tt
assurance_rows-HasFour provider i (check ∷ checks) =
    (refl, assurance_rows-HasFour provider (suc i) checks)

malware_rows-HasFour :
    (provider : LayoutProvider) (i : ℕ) (ms : List MalwareData)
    → All HasFour (malware_rows provider i ms)
unfolding malware_rows
malware_rows-HasFour provider i [] = tt
malware_rows-HasFour provider i (m ∷ ms) = (refl, malware_rows-HasFour provider (suc i) ms)

sensitive_rows-HasFour :
    (ss : List SensitiveData)
    → All HasFour (map (λ (s : SensitiveData). s.filename ∷ s.path ∷ s.type ∷ s.hash ∷ []) ss)
sensitive_rows-HasFour [] = tt
sensitive_rows-HasFour (s ∷ ss) = (refl, sensitive_rows-HasFour ss)

after_table-IsDone :
    (o : Outcome String) (k : String → Outcome String)
    → IsDone o
    → ((text : String) → IsDone (k text))
    → IsDone (after_table o k)
after_table-IsDone o k (text, e) h = rw e (h text)

module _ {provider : LayoutProvider} (total : TotalTables provider) where
  four_columns :
      (a b c d : String) (rows : List (List String))
      → All HasFour rows
      → IsDone (provider.table ((a ∷ b ∷ c ∷ d ∷ []) ∷ rows))
  four_columns a b c d rows h = total.table-IsDone ((a ∷ b ∷ c ∷ d ∷ []) ∷ rows) (omega arith, h)

  shown-IsDone :
      (title : String) (rows : List (List String))
      → All HasFour rows
      → IsDone (shown provider title rows)
  unfolding severity_table
  shown-IsDone title [] h = (_, refl)
  shown-IsDone title (row ∷ rows) h =
      after_table-IsDone _ _
        (four_columns "Vulnerability ID" "Resource name" "Installed version" "Fix version" _ h)
        λ table. (_, refl)

  filtered-IsDone :
      (severities : List (String × String)) (rs : List InfoResources)
      → IsDone (filtered provider severities rs)
  filtered-IsDone [] rs = (_, refl)
  filtered-IsDone ((key, title) ∷ rest) rs =
      after_table-IsDone _ _ (shown-IsDone title (all_rows key rs) (all_rows-HasFour key rs))
        λ text. after_table-IsDone _ _ (filtered-IsDone rest rs) λ later. (_, refl)

  add-IsDone :
      (text part : Outcome String) → IsDone text → IsDone part → IsDone (add provider text part)
  add-IsDone text part t p =
      after_table-IsDone text _ t λ before. after_table-IsDone part _ p λ more. (_, refl)

  titled-IsDone :
      (absent : Bool) (before title : String) (table : Outcome String)
      → IsDone table
      → IsDone (titled provider absent before title table)
  unfolding titled
  titled-IsDone true before title table h = (_, refl)
  titled-IsDone false before title table h = after_table-IsDone table _ h λ text. (_, refl)

  render_vulnerabilities-IsDone :
      (rs : List InfoResources) → IsDone (render_vulnerabilities provider rs)
  render_vulnerabilities-IsDone rs =
      let (text, e) = filtered-IsDone order rs in
      (text, render_vulnerabilities-filtered provider rs ∙ e)

  render_assurances-IsDone :
      (checks : List ControlCheck) → IsDone (render_assurances provider checks)
  unfolding render_assurances
  render_assurances-IsDone checks =
      four_columns "#" "Control" "Policy Name" "Status" _ (assurance_rows-HasFour provider 0 checks)

  render_malware-IsDone : (ms : List MalwareData) → IsDone (render_malware provider ms)
  unfolding render_malware
  render_malware-IsDone ms =
      four_columns "#" "Malware" "Hash" "Path" _ (malware_rows-HasFour provider 0 ms)

  render_sensitive_data-IsDone :
      (ss : List SensitiveData) → IsDone (render_sensitive_data provider ss)
  unfolding render_sensitive_data
  render_sensitive_data-IsDone ss =
      four_columns "File name" "Path" "Type" "Hash" _ (sensitive_rows-HasFour ss)

  vulnerabilities_table-IsDone :
      (c h m l n c' h' m' l' n' : String)
      → IsDone
          (vulnerabilities_table provider (c ∷ h ∷ m ∷ l ∷ n ∷ []) (c' ∷ h' ∷ m' ∷ l' ∷ n' ∷ []))
  unfolding vulnerabilities_table
  vulnerabilities_table-IsDone c h m l n c' h' m' l' n' =
      total.table-IsDone _ (omega arith, (refl, tt))

  pub gen_ticket_description-IsDone :
      (scan : ScanImageInfo) (prev : Option ScanImageInfo) (link : String)
      → IsDone (gen_ticket_description provider scan prev link)
  unfolding gen_ticket_description found
  gen_ticket_description-IsDone scan prev link =
      add-IsDone _ _
        (add-IsDone _ _
          (add-IsDone _ _
            (add-IsDone _ _
              (add-IsDone _ _
                (add-IsDone _ _
                  (add-IsDone _ _ (_, refl) (vulnerabilities_table-IsDone _ _ _ _ _ _ _ _ _ _))
                  (titled-IsDone _ _ _ _ (render_assurances-IsDone scan.checks_performed)))
                (titled-IsDone _ _ _ _ (render_vulnerabilities-IsDone scan.resources)))
              (titled-IsDone _ _ _ _
                (render_vulnerabilities-IsDone (before_resources provider prev))))
            (titled-IsDone _ _ _ _ (render_malware-IsDone scan.malwares)))
          (titled-IsDone _ _ _ _ (render_sensitive_data-IsDone scan.sensitive_data)))
        (_, refl)
