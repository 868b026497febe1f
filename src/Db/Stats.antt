-- ===== src/Db/Stats.antt =====
-- dbservice/plgnstats.go: RegisterPlgnInvctn counts the messages of an output.
pub mod Count
use postee.Prelude.{String, Option, none, some, Result, Action, ◌>>◌}
use postee.Prelude.Int.{ℤ, pos, add_int}
use postee.Prelude.Text.{atoi, itoa}
use postee.Db.Bolt.{Bolt}
use postee.Db.Access.{bucket_output_stats, open_db, init, update}

-- The number that the stored text stands for. The error of `strconv.Atoi` is overwritten by that
-- of `Put`, and its value is used.
unfoldable pub stored_count : Option String → ℤ
stored_count none = pos 0
stored_count (some v) = (atoi v).0

module _ (bolt : Bolt) where
  open bolt use {File, get, put}

  abbrev count_up : String → File → Result File
  count_up name f =
      put f bucket_output_stats name
        (itoa (add_int (stored_count (get f bucket_output_stats name)) 1))

  unfoldable pub register_plgn_invctn : String → Action File (Unit {0})
  unfolding stored_count
  register_plgn_invctn name = do
    open_db bolt
    init bolt bucket_output_stats
    update bolt (count_up name)
