-- ===== src/Ui/Stats.antt =====
-- ui/backend/dbservice/getplgnstats.go and ui/backend/uiserver/plgnstats.go: the statistics that
-- dbservice has counted, read from its file.
pub mod Counted
use postee.Prelude.{
  String, Bool, Option, none, some, List, [], ◌∷◌, Result, ok, err, Error, Dict, insert,
  if◌then◌else◌,
}
use postee.Prelude.Int.{ℤ}
use postee.Prelude.Text.{atoi}
use postee.Db.Bolt.{Bolt}
use postee.Ui.World.{Answer, answer}

-- r[k] = cnt, unless the text of the count cannot be read.
abbrev put_count : String → ℤ × Option Error → Dict ℤ → Result (Dict ℤ)
put_count key (cnt, some e) r = err e
put_count key (cnt, none) r = ok (insert key cnt r)

-- The loop of the cursor.
unfoldable pub read_counts : List (String × String) → Dict ℤ → Result (Dict ℤ)
unfolding insert atoi
read_counts [] r = ok r
read_counts ((key, value) ∷ entries) r = elim (put_count key (atoi value) r) [
  | err e ↦ err e
  | ok r' ↦ read_counts entries r'
]

module _ (bolt : Bolt) (bucket_stats : String) where
  open bolt use {File, open_file, has_bucket, entries}

  -- `bucket_stats` is the name that the older dbservice gives to the bucket.
  unfoldable pub get_plgn_stats : File → Result (Dict ℤ)
  unfolding read_counts
  get_plgn_stats f = elim (open_file f) [
    | some e ↦ err e
    | none ↦ if has_bucket f bucket_stats then read_counts (entries f bucket_stats) [] else ok []
  ]

  module _ {Cookie : Type 0} (marshal : Dict ℤ → Result String) where
    abbrev stats_text : Result String → Answer Cookie
    stats_text (err e) = answer 500 e
    stats_text (ok text) = answer 200 text

    abbrev stats_answer : Result (Dict ℤ) → Answer Cookie
    stats_answer (err e) = answer 500 e
    stats_answer (ok stats) = stats_text (marshal stats)

    unfoldable pub plgn_stats : File → Answer Cookie
    unfolding get_plgn_stats
    plgn_stats f = stats_answer (get_plgn_stats f)
