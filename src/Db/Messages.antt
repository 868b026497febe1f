-- ===== src/Db/Messages.antt =====
-- dbservice/actions.go: MayBeStoreMessage, which remembers a message by its key.
pub mod Behaviour
pub mod Once
use postee.Prelude.{
  ℕ, String, Bool, true, false, Option, none, some, Outcome, Action, pure, ◌>>=◌, ◌>>◌,
}
use postee.Prelude.Int.{ℤ}
use postee.Db.Bolt.{Bolt}
use postee.Db.Access.{bucket_name, bucket_expiry_dates, open_db, init, db_select, db_insert}

-- `date_fmt` stands for `Time.Format(DateFmt)`; a time is a number of nanoseconds.
module _ (bolt : Bolt) (date_fmt : ℤ → String) where
  open bolt use {File}

  store_expiry : Option ℤ → String → Action File (Unit {0})
  store_expiry none key = pure tt
  store_expiry (some expired) key = db_insert bolt bucket_expiry_dates (date_fmt expired) key

  store_new : String → String → Option ℤ → Action File Bool
  store_new message key expired = do
    db_insert bolt bucket_name key message
    store_expiry expired key
    pure true

  store_unless : String → String → Option ℤ → Option String → Action File Bool
  store_unless message key expired (some current) = pure false
  store_unless message key expired none = store_new message key expired

  -- The result tells whether the message was stored.
  unfoldable pub may_be_store_message : String → String → Option ℤ → Action File Bool
  unfolding store_unless store_new store_expiry
  may_be_store_message message key expired = do
    open_db bolt
    init bolt bucket_name
    init bolt bucket_expiry_dates
    current ← db_select bolt bucket_name key
    store_unless message key expired current
