-- ===== src/Layout/Total.antt =====
-- What a template relies on of a layout: tables that are written without a panic.
use postee.Prelude.{◌≤◌, String, List, [], ◌∷◌, Outcome, done, ◌≡◌, refl, length, All}
use postee.Layout.Provider.{LayoutProvider}
use postee.Layout.Html.{html_provider}
use postee.Layout.Jira.{jira_provider}

-- The header has a cell, and every other row has as many cells as the header.
abbrev pub IsRectangular : List (List String) → Type 0
IsRectangular [] = ⊥
IsRectangular (header ∷ rows) = (1 ≤ length header) × All (λ row. length row ≡ length header) rows

abbrev pub IsDone : {A : Type 0} → Outcome A → Type 0
IsDone {A} o = (a : A) × (o ≡ done a)

pub record TotalTables (provider : LayoutProvider) : Type 0 where
  pub table-IsDone : (rows : List (List String)) → IsRectangular rows → IsDone (provider.table rows)

pub html-TotalTables : TotalTables html_provider
html-TotalTables = record { table-IsDone = λ rows h. (_, refl) }

pub jira-TotalTables : TotalTables jira_provider
jira-TotalTables = record { table-IsDone = λ rows h. (_, refl) }
