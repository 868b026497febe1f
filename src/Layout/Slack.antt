-- ===== src/Layout/Slack.antt =====
-- formatting/slackmrkdwnprovider.go: Slack's blocks, as JSON.
pub mod Room
pub mod Total
use Prim.Native.String.{◌++◌}
use postee.Prelude.{
  ℕ, zero, suc, ◌+◌, ◌-◌, ◌*◌, ◌%◌, String, Bool, true, false, Option, none, some, List, [], ◌∷◌,
  Outcome, done, failed, panicked, Result, ok, err, length, if◌then◌else◌, eqb, ltb, ◌==◌, ◌&&◌,
}
use postee.Data.{SlackTextBlock, SlackBlock}
use postee.Layout.Provider.{LayoutProvider}

abbrev pub mrkdwn : String → SlackTextBlock
mrkdwn text = record { type_field = "mrkdwn"; text_field = text }

-- The zero value of a text block, which `make` fills a slice with.
abbrev pub blank : SlackTextBlock
blank = record { type_field = ""; text_field = "" }

abbrev pub section : List SlackTextBlock → SlackBlock
section fields = record { type_field = "section"; text_field = none; fields = fields }

abbrev pub replicate : ℕ → SlackTextBlock → List SlackTextBlock
replicate zero b = []
replicate (suc n) b = b ∷ replicate n b

-- fields[i] = b, which panics out of range.
abbrev pub put_at : ℕ → SlackTextBlock → List SlackTextBlock → Outcome (List SlackTextBlock)
put_at i b [] = panicked
put_at zero b (x ∷ xs) = done (b ∷ xs)
put_at (suc i) b (x ∷ xs) = elim (put_at i b xs) [ done ys ↦ done (x ∷ ys) | o ↦ o ]

abbrev pub then_ : {A B : Type 0} → Outcome A → (A → Outcome B) → Outcome B
then_ (done a) k = k a
then_ (failed e) k = failed e
then_ panicked k = panicked

-- The first cell of the header.
abbrev first_cell : List String → Outcome String
first_cell [] = panicked
first_cell (cell ∷ cells) = done cell

-- The two texts that the cells of a row are put into.
abbrev Pair : Type 0
Pair = String × String

abbrev with_bold : Bool → String → String
with_bold true cell = "*" ++ (cell ++ "*")
with_bold false cell = cell

-- The cells from the third on.
more_cells : Bool → List String → String → String
more_cells bold [] cell2 = cell2
more_cells bold (cell ∷ cells) cell2 =
    more_cells bold cells (cell2 ++ (" / " ++ with_bold bold cell))

-- The third cell has no slash in front of it: the slash stands behind the second, if that one is there.
third_cells : Bool → List String → String → String
third_cells bold [] cell2 = cell2
third_cells bold (cell ∷ cells) cell2 = more_cells bold cells (cell2 ++ with_bold bold cell)

abbrev second_cell : Bool → String → String → List String → String → Pair
second_cell bold cell1 cell rest corner =
    if corner == "#" then (cell1 ++ (" " ++ with_bold bold cell), third_cells bold rest "") else (
      cell1,
      third_cells bold rest
          (elim rest [ [] ↦ with_bold bold cell | _ ∷ _ ↦ with_bold bold cell ++ " / " ]),
    )

unfoldable pub row_cells : (header : List String) → Bool → List String → Outcome Pair
unfolding more_cells third_cells
row_cells header bold [] = done ("", "")
row_cells header bold (cell ∷ []) = done (with_bold bold cell, "")
row_cells header bold (cell ∷ second ∷ rest) =
    then_ (first_cell header)
      λ corner. done (second_cell bold (with_bold bold cell) second rest corner)

-- The length of the block that begins at a line.
abbrev pub new_size : (total line : ℕ) → ℕ
new_size total line = (if ltb (total - line) 5 then total - line else 5) * 2

-- encoding/json at a block.
module _ (marshal : SlackBlock → Result String) where
  unfoldable pub get_mrkdwn_text : String → String
  get_mrkdwn_text text =
      elim (marshal
        (record { type_field = "section"; text_field = some (mrkdwn text); fields = [] })) [
          | ok block ↦ block ++ ","
          | err e ↦ ""
        ]

  -- The builder, and the block that is being filled; none before the first row.
  abbrev pub Building : Type 0
  Building = String × Option (List SlackTextBlock)

  abbrev pub write_block : String → List SlackTextBlock → Outcome String
  write_block builder fields = elim (marshal (section fields)) [
    | ok block ↦ done (builder ++ (block ++ ","))
    | err e ↦ failed e
  ]

  abbrev flushed : Building → Outcome String
  flushed (builder, none) = done builder
  flushed (builder, some fields) = write_block builder fields

  -- At every fifth row a new block is begun, with room for the rows that are left, five at most.
  abbrev begin_block : (total line : ℕ) → Building → Outcome Building
  begin_block total line b =
      if eqb (line % 5) 0
      then then_ (flushed b)
          (λ builder. done (builder, some (replicate (new_size total line) blank)))
      else done b

  abbrev put_pair : ℕ → Pair → Building → Outcome Building
  put_pair line (cell1, cell2) (builder, none) = panicked
  put_pair line (cell1, cell2) (builder, some fields) =
      then_ (put_at (line % 5 * 2) (mrkdwn cell1) fields) λ once.
        then_ (put_at (line % 5 * 2 + 1) (mrkdwn cell2) once) λ twice. done (builder, some twice)

  unfoldable pub put_row :
      (header : List String) → (total line : ℕ) → List String → Building → Outcome Building
  unfolding row_cells
  put_row header total line row b =
      then_ (begin_block total line b)
        λ begun. then_ (row_cells header (eqb line 0) row) λ cells. put_pair line cells begun

  unfoldable pub put_rows :
      (header : List String) → (total line : ℕ) → List (List String) → Building → Outcome Building
  unfolding put_row
  put_rows header total line [] b = done b
  put_rows header total line (row ∷ rows) b =
      then_ (put_row header total line row b) λ next. put_rows header total (suc line) rows next

  -- The two rows of five columns: names in the even places, values in the odd ones.
  put_names : ℕ → List String → List SlackTextBlock → Outcome (List SlackTextBlock)
  put_names j [] fields = done fields
  put_names j (cell ∷ cells) fields =
      then_ (put_at (j * 2) (mrkdwn ("*" ++ (cell ++ "*"))) fields) (put_names (suc j) cells)

  put_values : ℕ → List String → List SlackTextBlock → Outcome (List SlackTextBlock)
  put_values j [] fields = done fields
  put_values j (cell ∷ cells) fields =
      then_ (put_at (j * 2 + 1) (mrkdwn cell) fields) (put_values (suc j) cells)

  abbrev is_summary : List (List String) → Bool
  is_summary (names ∷ values ∷ []) = eqb (length names) 5
  is_summary _ = false

  abbrev summary : List (List String) → Outcome Building
  summary (names ∷ values ∷ rows) =
      then_ (put_names 0 names (replicate (2 * length names) blank))
        λ fields. then_ (put_values 0 values fields) λ filled. done ("", some filled)
  summary _ = done ("", none)

  abbrev rows_of : List (List String) → Outcome Building
  rows_of [] = done ("", none)
  rows_of (header ∷ rows) = put_rows header (length (header ∷ rows)) 0 (header ∷ rows) ("", none)

  -- An error of encoding/json is logged, and the table is empty.
  abbrev unless_logged : Outcome String → Outcome String
  unless_logged (done text) = done text
  unless_logged (failed e) = done ""
  unless_logged panicked = panicked

  abbrev last_block : Building → Outcome String
  last_block (builder, none) = write_block builder []
  last_block (builder, some fields) = write_block builder fields

  unfoldable pub slack_table : List (List String) → Outcome String
  unfolding put_rows put_names put_values
  slack_table [] = done ""
  slack_table (header ∷ rows) = unless_logged (
      then_
        (if is_summary (header ∷ rows) then summary (header ∷ rows) else rows_of (header ∷ rows))
        last_block)

  abbrev pub slack_provider : LayoutProvider
  unfolding slack_table get_mrkdwn_text
  slack_provider = record {
    title_h1 = λ title. get_mrkdwn_text ("*" ++ (title ++ "*"));
    title_h2 = λ title. get_mrkdwn_text ("*" ++ (title ++ "*"));
    title_h3 = λ title. get_mrkdwn_text ("*" ++ (title ++ "*"));
    colour_text = λ text color. "*" ++ (text ++ "*");
    table = slack_table;
    p = get_mrkdwn_text;
    a = λ url title. "<" ++ (url ++ ("|" ++ (title ++ ">")));
  }
