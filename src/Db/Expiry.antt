-- ===== src/Db/Expiry.antt =====
-- dbservice/checker.go: the messages whose date has passed are dropped, and the whole bucket of
-- messages when it has grown too large.
pub mod Due
pub mod Lifetime
use Prim.Native.String.{len}
use postee.Prelude.{
  ℕ, ◌+◌, String, Bool, List, [], ◌∷◌, map, not, Result, ok, err, Outcome, done, failed, panicked,
  Action, pure, ◌>>=◌, ◌>>◌, if◌then◌else◌, take_while,
}
use postee.Prelude.Int.{ℤ, pos, ltb_ℤ, eqb_ℤ}
use postee.Prelude.Text.{ltb_text}
use postee.Db.Bolt.{Bolt}
use postee.Db.Access.{bucket_name, bucket_expiry_dates, open_db, update, db_delete}

-- The functions that only log their errors end as if all had gone well.
abbrev log_error : {S : Type 0} → Action S (Unit {0}) → Action S (Unit {0})
log_error m s = elim (m s).0 [ failed e ↦ (done tt, (m s).1) | o ↦ (o, (m s).1) ]

total_size : List (String × String) → ℕ
total_size [] = 0
total_size ((k, v) ∷ l) = len v + total_size l

module _ (bolt : Bolt) where
  open bolt use {File, has_bucket, entries, delete_bucket}

  drop_if_large : ℤ → File → Result File
  drop_if_large limit f =
      if has_bucket f bucket_name
      then (if ltb_ℤ limit (pos (total_size (entries f bucket_name)))
          then delete_bucket f bucket_name
          else ok f)
      else ok f

  unfoldable pub check_size_limit : ℤ → Action File (Unit {0})
  unfolding drop_if_large total_size
  check_size_limit limit =
      if eqb_ℤ limit (pos 0)
      then pure tt
      else log_error (do open_db bolt; update bolt (drop_if_large limit))

  module _ (date_fmt : ℤ → String) where
    -- The entries from the first date up to the present one; none without the bucket.
    due : ℤ → File → List (String × String)
    due now f =
        if has_bucket f bucket_expiry_dates
        then take_while (λ e. not (ltb_text (date_fmt now) e.0)) (entries f bucket_expiry_dates)
        else []

    -- The keys of the messages that are due; their dates are dropped.
    unfoldable pub get_expired : ℤ → Action File (List String)
    unfolding due
    get_expired now f =
        (do
          db_delete bolt bucket_expiry_dates (map (λ e. e.0) (due now f))
          pure (map (λ e. e.1) (due now f)))
          f

    unfoldable pub remove_expired : ℤ → Action File (Unit {0})
    unfolding get_expired
    remove_expired now = do
      open_db bolt
      expired ← get_expired now
      db_delete bolt bucket_name expired

    unfoldable pub check_expired_data : ℤ → Action File (Unit {0})
    unfolding remove_expired
    check_expired_data now = log_error (remove_expired now)
