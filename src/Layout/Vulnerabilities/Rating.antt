-- ===== src/Layout/Vulnerabilities/Rating.antt =====
-- The sorting of vulnerabilities by severity, against a filter that has no map.
use postee.Prelude.{
  String, Option, none, some, List, [], ◌∷◌, ◌++◌, Dict, lookup, insert, lookup-insert, Outcome,
  done, ◌≡◌, ◌∙◌, refl, sym, ap, arith, inl, inr, ◌==◌, eq_iff, if◌then◌else◌, Bool-cases,
}
use Prim.Native.String
use mathlib.Core.List.{append_assoc, append-nil}
use postee.Prelude.Text.{to_lower}
use postee.Data.{InfoResources, Vulnerability}
use postee.Layout.Provider.{LayoutProvider}
use postee.Layout.Vulnerabilities.{
  after_table, vulnerability_row, rows_in, rated, append_row, rate_vulnerabilities, rate_resources,
  order, severity_table, render_severity, render_severities, render_vulnerabilities,
}

-- The rows of a severity among the vulnerabilities of a resource, in their order.
abbrev pub rows_of : String → InfoResources → List Vulnerability → List (List String)
rows_of key r [] = []
rows_of key r (v ∷ vs) =
    let rest = rows_of key r vs in
    if to_lower v.severity == key then vulnerability_row r v ∷ rest else rest

abbrev pub all_rows : String → List InfoResources → List (List String)
all_rows key [] = []
all_rows key (r ∷ rs) = rows_of key r r.vulnerabilities ++ all_rows key rs

-- A slice of a map after rows were appended to it.
abbrev extended : Option (List (List String)) → List (List String) → Option (List (List String))
extended o [] = o
extended none (x ∷ xs) = some (x ∷ xs)
extended (some ys) (x ∷ xs) = some (ys ++ (x ∷ xs))

append_row_lem :
    (rows : List (List String)) (row : List String) → append_row rows row ≡ rows ++ (row ∷ [])
unfolding append_row
append_row_lem [] row = refl
append_row_lem (x ∷ rows) row = rw (append_row_lem rows row) refl

extended-row :
    (o : Option (List (List String))) (row : List String) (rest : List (List String))
    → extended (some (append_row (rows_in o) row)) rest ≡ extended o (row ∷ rest)
extended-row none row [] = rw append_row_lem refl
extended-row none row (x ∷ rest) = rw append_row_lem refl
extended-row (some ys) row [] = rw append_row_lem refl
extended-row (some ys) row (x ∷ rest) =
    rw append_row_lem (ap some (append_assoc ys (row ∷ []) (x ∷ rest)))

extended-append :
    (o : Option (List (List String))) (xs ys : List (List String))
    → extended (extended o xs) ys ≡ extended o (xs ++ ys)
extended-append o [] ys = refl
extended-append none (x ∷ xs) [] = ap (λ l. some (x ∷ l)) (sym (append-nil xs))
extended-append none (x ∷ xs) (y ∷ ys) = refl
extended-append (some zs) (x ∷ xs) [] = ap (λ l. some (zs ++ (x ∷ l))) (sym (append-nil xs))
extended-append (some zs) (x ∷ xs) (y ∷ ys) = ap some (append_assoc zs (x ∷ xs) (y ∷ ys))

lookup-append_row :
    (k key : String) (row : List String) (rating : Dict (List (List String)))
    → lookup key (insert k (append_row (rated k rating) row) rating)
      ≡ (if k == key then some (append_row (rated key rating) row) else lookup key rating)
lookup-append_row k key row rating =
    ground (arith, lookup-insert k key (append_row (rated k rating) row) rating, eq_iff k key)

lookup-rate_vulnerabilities :
    (key : String) (r : InfoResources) (vs : List Vulnerability)
    (rating : Dict (List (List String)))
    → lookup key (rate_vulnerabilities r vs rating)
      ≡ extended (lookup key rating) (rows_of key r vs)
unfolding rate_vulnerabilities
lookup-rate_vulnerabilities key r [] rating = refl
lookup-rate_vulnerabilities key r (v ∷ vs) rating =
    let k = to_lower v.severity in
    let row = vulnerability_row r v in
    lookup-rate_vulnerabilities key r vs (insert k (append_row (rated k rating) row) rating)
    ∙ (rw (lookup-append_row k key row rating) (elim (Bool-cases (to_lower v.severity == key)) [
      | inl e ↦ rw e (extended-row (lookup key rating) row (rows_of key r vs))
      | inr e ↦ rw e refl
    ]))

lookup-rate_resources :
    (key : String) (rs : List InfoResources) (rating : Dict (List (List String)))
    → lookup key (rate_resources rs rating) ≡ extended (lookup key rating) (all_rows key rs)
unfolding rate_resources
lookup-rate_resources key [] rating = refl
lookup-rate_resources key (r ∷ rs) rating =
    lookup-rate_resources key rs (rate_vulnerabilities r r.vulnerabilities rating)
    ∙ ap (λ o. extended o (all_rows key rs))
        (lookup-rate_vulnerabilities key r r.vulnerabilities rating)
    ∙ extended-append (lookup key rating) (rows_of key r r.vulnerabilities) (all_rows key rs)

module _ (provider : LayoutProvider) where
  -- A severity's title and table; nothing where it has no rows.
  abbrev pub shown : String → List (List String) → Outcome String
  shown title [] = done ""
  shown title (row ∷ rows) = severity_table provider title (row ∷ rows)

  abbrev pub filtered : List (String × String) → List InfoResources → Outcome String
  filtered [] rs = done ""
  filtered ((key, title) ∷ rest) rs =
      after_table (shown title (all_rows key rs))
        λ text. after_table (filtered rest rs) λ later. done (String.◌++◌ text later)

  render_severity-extended :
      (title : String) (rows : List (List String))
      → render_severity provider title (extended none rows) ≡ shown title rows
  unfolding render_severity
  render_severity-extended title [] = refl
  render_severity-extended title (row ∷ rows) = refl

  render_severities-filtered :
      (severities : List (String × String)) (rs : List InfoResources)
      → render_severities provider severities (rate_resources rs []) ≡ filtered severities rs
  unfolding render_severities lookup
  render_severities-filtered [] rs = refl
  render_severities-filtered ((key, title) ∷ rest) rs = rw (lookup-rate_resources key rs []) (
      rw (render_severity-extended title (all_rows key rs))
        (rw (render_severities-filtered rest rs) refl))

  -- The tables of the vulnerabilities are those of a filter: for each severity in order, with any case
  -- of its letters, the rows of its vulnerabilities in the order of the scan, and no table where there
  -- are none; a vulnerability of another severity is in no table.
  pub render_vulnerabilities-filtered :
      (resources : List InfoResources)
      → render_vulnerabilities provider resources ≡ filtered order resources
  unfolding render_vulnerabilities
  render_vulnerabilities-filtered resources = render_severities-filtered order resources
