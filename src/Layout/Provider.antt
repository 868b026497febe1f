-- ===== src/Layout/Provider.antt =====
-- layout/provider.go: what a text is written with; and layout/colors.go.
use postee.Prelude.{String, List, Outcome}

-- The interface LayoutProvider. A table may panic.
pub record LayoutProvider : Type 0 where
  pub title_h1 : String → String
  pub title_h2 : String → String
  pub title_h3 : String → String
  pub colour_text : (text color : String) → String
  pub table : List (List String) → Outcome String
  pub p : String → String
  pub a : (url title : String) → String

abbrev pub critical_color : String
critical_color = "#c00000"

abbrev pub high_color : String
high_color = "#e0443d"

abbrev pub medium_color : String
medium_color = "#f79421"

abbrev pub low_color : String
low_color = "#e1c930"

abbrev pub negligible_color : String
negligible_color = "green"
