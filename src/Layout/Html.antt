-- ===== src/Layout/Html.antt =====
-- formatting/htmlprovider.go.
use Prim.Native.String.{◌++◌}
use postee.Prelude.{String, List, [], ◌∷◌, done}
use postee.Prelude.Text.{join}
use postee.Layout.Provider.{LayoutProvider}

cells : String → List String → String
cells tag [] = ""
cells tag (field ∷ fields) =
    "<"
    ++ (tag
        ++ (" style='padding: 5px;'>" ++ (field ++ ("</" ++ (tag ++ (">" ++ cells tag fields))))))

-- The lines of the rows from the second on.
body_rows : List (List String) → List String
body_rows [] = "</TABLE>\n" ∷ []
body_rows (row ∷ rows) = "<TR>" ∷ cells "TD" row ∷ "</TR>" ∷ body_rows rows

all_rows : List (List String) → List String
all_rows [] = "</TABLE>\n" ∷ []
all_rows (row ∷ rows) = "<TR>" ∷ cells "TH" row ∷ "</TR>" ∷ body_rows rows

unfoldable pub html_table : List (List String) → String
unfolding cells body_rows all_rows
html_table rows =
    join ("<TABLE border='1' style='width: 100%; border-collapse: collapse;'>" ∷ all_rows rows) "\n"

abbrev pub html_provider : LayoutProvider
html_provider = record {
  title_h1 = λ title. "<h1>" ++ (title ++ "</h1>\n");
  title_h2 = λ title. "<h2>" ++ (title ++ "</h2>\n");
  title_h3 = λ title. "<h3>" ++ (title ++ "</h3>\n");
  colour_text = λ text color. "<span style='color:" ++ (color ++ ("'>" ++ (text ++ "</span>")));
  table = λ rows. done (html_table rows);
  p = λ text. "<p>" ++ (text ++ "</p>\n");
  a = λ url title. "<a href='" ++ (url ++ ("'>" ++ (title ++ "</a>")));
}
