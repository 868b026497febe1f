-- ===== src/Layout/Slack/Total.antt =====
-- formatting/slackmrkdwnprovider.go: the ends of Table.
use Prim.Native.String
use postee.Prelude.{
  ℕ, suc, ◌+◌, ◌-◌, ◌*◌, ◌≤◌, String, none, some, List, [], ◌∷◌, Outcome, done, Result, ◌≡◌, inl,
  inr, refl, arith, length, if◌then◌else◌, eqb, Bool-cases,
}
use postee.Data.{SlackTextBlock, SlackBlock}
use postee.Layout.Total.{IsRectangular, IsDone, TotalTables}
use postee.Layout.Slack.{
  mrkdwn, blank, replicate, Building, put_row, put_rows, put_names, put_values, slack_table,
  slack_provider, summary, last_block, unless_logged, is_summary, rows_of,
}
use postee.Layout.Slack.Room.{
  length-replicate, put_at-IsDone, row_cells-IsDone, Ends, then-Ends, write_block-Ends, HasRoom,
  Open, begin_block-Ends, put_pair-Ends, ends, fails,
}

module _ (marshal : SlackBlock → Result String) where
  put_names-IsDone :
      (j : ℕ) (cells : List String) (fields : List SlackTextBlock)
      → 2 * (j + length cells) ≤ length fields
      → (filled : List SlackTextBlock) × (put_names marshal j cells fields ≡ done filled)
        × (length filled ≡ length fields)
  unfolding put_names
  put_names-IsDone j [] fields h = (fields, refl, refl)
  put_names-IsDone j (cell ∷ cells) fields h =
      let (ys, e, l) =
        put_at-IsDone (j * 2) (mrkdwn (String.◌++◌ "*" (String.◌++◌ cell "*"))) fields
          (omega (arith, h)) in
      let (zs, f, m) = put_names-IsDone (suc j) cells ys (omega (arith, h, l)) in
      (zs, rw e f, omega (arith, l, m))

  put_values-IsDone :
      (j : ℕ) (cells : List String) (fields : List SlackTextBlock)
      → 2 * (j + length cells) ≤ length fields
      → (filled : List SlackTextBlock) × (put_values marshal j cells fields ≡ done filled)
        × (length filled ≡ length fields)
  unfolding put_values
  put_values-IsDone j [] fields h = (fields, refl, refl)
  put_values-IsDone j (cell ∷ cells) fields h =
      let (ys, e, l) = put_at-IsDone (j * 2 + 1) (mrkdwn cell) fields (omega (arith, h)) in
      let (zs, f, m) = put_values-IsDone (suc j) cells ys (omega (arith, h, l)) in
      (zs, rw e f, omega (arith, l, m))

  put_row-Ends :
      (cell : String) (cells : List String) (total line left : ℕ) (row : List String)
      (b : Building marshal)
      → total - line ≡ suc left
      → HasRoom marshal (suc left) line b
      → Ends (HasRoom marshal left (suc line)) (put_row marshal (cell ∷ cells) total line row b)
  unfolding put_row
  put_row-Ends cell cells total line left row b e h =
      then-Ends (Open marshal (suc left) line) (HasRoom marshal left (suc line)) _ _
        (begin_block-Ends marshal total line (suc left) b e h)
        λ begun open_block.
          let (pair, p) = row_cells-IsDone cell cells (eqb line 0) row in
          rw p (put_pair-Ends marshal left line pair begun open_block)

  put_rows-Ends :
      (cell : String) (cells : List String) (total line : ℕ) (rows : List (List String))
      (b : Building marshal)
      → total ≡ line + length rows
      → HasRoom marshal (length rows) line b
      → Ends (λ b. Unit) (put_rows marshal (cell ∷ cells) total line rows b)
  unfolding put_rows
  put_rows-Ends cell cells total line [] b e h = ends b tt
  put_rows-Ends cell cells total line (row ∷ rows) b e h =
      then-Ends (HasRoom marshal (length rows) (suc line)) (λ b. Unit) _ _
        (put_row-Ends cell cells total line (length rows) row b (omega (arith, e)) h)
        (λ next room. put_rows-Ends cell cells total (suc line) rows next (omega (arith, e)) room)

  every_row-Ends :
      (cell : String) (cells : List String) (rows : List (List String))
      → Ends (λ b. Unit) (put_rows marshal (cell ∷ cells) (length rows) 0 rows ("", none))
  every_row-Ends cell cells rows =
      put_rows-Ends cell cells (length rows) 0 rows ("", none) (omega arith) refl

  summary-Ends :
      (names values : List String)
      → length names ≡ 5
      → length values ≡ 5
      → Ends (λ b. Unit) (summary marshal (names ∷ values ∷ []))
  summary-Ends names values n v =
      let l = length-replicate (2 * length names) blank in
      let (ys, e, m) =
        put_names-IsDone 0 names (replicate (2 * length names) blank) (omega (arith, l)) in
      let (zs, f, k) = put_values-IsDone 0 values ys (omega (arith, l, m, n, v)) in
      rw (e, f) (ends _ tt)

  last_block-Ends : (b : Building marshal) → Ends (λ text. Unit) (last_block marshal b)
  last_block-Ends (builder, none) = write_block-Ends marshal builder []
  last_block-Ends (builder, some fields) = write_block-Ends marshal builder fields

  Ends-IsDone : (o : Outcome String) → Ends (λ text. Unit) o → IsDone (unless_logged marshal o)
  Ends-IsDone o (ends text u) = (text, refl)
  Ends-IsDone o (fails e) = ("", refl)

  built-Ends :
      (header : List String) (rows : List (List String))
      → IsRectangular (header ∷ rows)
      → Ends
          (λ b. Unit)
          (if is_summary marshal (header ∷ rows)
            then summary marshal (header ∷ rows)
            else rows_of marshal (header ∷ rows))
  built-Ends [] rows (h, r) = absurd (omega (arith, h))
  built-Ends (cell ∷ cells) [] h = every_row-Ends cell cells _
  built-Ends (cell ∷ cells) (row ∷ next ∷ rows) h = every_row-Ends cell cells _
  built-Ends (cell ∷ cells) (values ∷ []) (h, (r, u)) =
      elim (Bool-cases (eqb (length (cell ∷ cells)) 5)) [
        | inr e ↦ rw e (every_row-Ends cell cells _)
        | inl e ↦
            let five : length (cell ∷ cells) ≡ 5 = ground (arith, e) in
            rw e (summary-Ends (cell ∷ cells) values five (omega (arith, r, five)))
      ]

  slack_table-IsDone :
      (rows : List (List String)) → IsRectangular rows → IsDone (slack_table marshal rows)
  unfolding slack_table
  slack_table-IsDone [] h = absurd h
  slack_table-IsDone (header ∷ rows) h = Ends-IsDone _ (
      then-Ends (λ b. Unit) (λ text. Unit) _ _ (built-Ends header rows h)
        (λ b u. last_block-Ends b))

  -- No table that is rectangular makes the writing of its blocks go out of their range.
  pub slack-TotalTables : TotalTables (slack_provider marshal)
  unfolding slack_provider slack_table
  slack-TotalTables = record { table-IsDone = slack_table-IsDone }
