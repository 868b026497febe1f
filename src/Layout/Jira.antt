-- ===== src/Layout/Jira.antt =====
-- formatting/jiraprovider.go.
use Prim.Native.String.{◌++◌}
use postee.Prelude.{String, List, [], ◌∷◌, done}
use postee.Prelude.Text.{join}
use postee.Layout.Provider.{LayoutProvider}

body_rows : List (List String) → String
body_rows [] = "\n"
body_rows (row ∷ rows) = "|" ++ (join row "|" ++ ("|\n" ++ body_rows rows))

unfoldable pub jira_table : List (List String) → String
unfolding body_rows
jira_table [] = ""
jira_table (row ∷ rows) = "||" ++ (join row "||" ++ ("||\n" ++ body_rows rows))

abbrev pub jira_provider : LayoutProvider
jira_provider = record {
  title_h1 = λ title. "h1. " ++ (title ++ "\n");
  title_h2 = λ title. "h2. " ++ (title ++ "\n");
  title_h3 = λ title. "h3. " ++ (title ++ "\n");
  colour_text = λ text color. "{color:" ++ (color ++ ("}" ++ (text ++ "{color}")));
  table = λ rows. done (jira_table rows);
  p = λ text. text ++ "\n";
  a = λ url title. "[" ++ (title ++ ("|" ++ (url ++ "]")));
}
