-- ===== src/Db/Aggregator.antt =====
-- dbservice/dbaggregator.go: AggregateScans, a queue of scans for each output.
pub mod Queue
pub mod Frame
pub mod Conservation
pub mod TextCodec
use postee.Prelude.{
  ℕ, String, Bool, Option, none, some, List, [], ◌∷◌, ◌++◌, ◌||◌, ◌==◌, ◌≡◌, ◌≢◌, Dict, Result, ok,
  err, Action, pure, lift, panic, ◌>>=◌, ◌>>◌, if◌then◌else◌, length,
}
use postee.Prelude.Int.{ℤ, pos, ltb_ℤ}
use postee.Db.Bolt.{Bolt}
use postee.Db.Access.{bucket_aggregator, open_db, init, db_select, db_insert}

-- The content of one message: `map[string]string`.
abbrev pub Content : Type 0
Content = Dict String

-- `json.Marshal` and `json.Unmarshal` at `[]map[string]string`.
pub record Codec : Type 0 where
  pub marshal : List Content → Result String
  pub unmarshal : String → Result (List Content)

-- The documented round trip: what was encoded is not empty, and decodes to the same maps.
pub record CodecLaws (codec : Codec) : Type 0 where
  pub unmarshal-marshal :
      (scans : List Content) (text : String)
      → codec.marshal scans ≡ ok text
      → (codec.unmarshal text ≡ ok scans) × (text ≢ "")

module _ (codec : Codec) where
  -- A value that is missing or empty is an empty queue.
  unfoldable pub decode : Option String → Result (List Content)
  decode none = ok []
  decode (some text) = if text == "" then ok [] else codec.unmarshal text

-- The current scan, if it holds anything, goes in front.
abbrev pub with_current : Content → List Content → List Content
with_current [] saved = saved
with_current (field ∷ rest) saved = (field ∷ rest) ∷ saved

module _ (bolt : Bolt) (codec : Codec) where
  open bolt use {File}

  save : String → List Content → Action File (List Content)
  save output scans = do
    saving ← lift (codec.marshal scans)
    db_insert bolt bucket_aggregator output saving
    pure []

  release : String → List Content → Action File (List Content)
  release output scans = do db_insert bolt bucket_aggregator output ""; pure scans

  save_or_release : String → ℤ → Bool → List Content → Action File (List Content)
  save_or_release output scans_per_ticket ignore_the_quantity scans =
      if ignore_the_quantity || ltb_ℤ (pos (length scans)) scans_per_ticket
      then save output scans
      else release output scans

  -- `make` panics at a negative capacity.
  check_capacity : ℤ → Action File (Unit {0})
  check_capacity n = if ltb_ℤ n (pos 0) then panic else pure tt

  -- The scans to send now; a nil slice is an empty list.
  unfoldable pub aggregate_scans : String → Content → ℤ → Bool → Action File (List Content)
  unfolding save_or_release save release check_capacity
  aggregate_scans output current_scan scans_per_ticket ignore_the_quantity = do
    open_db bolt
    init bolt bucket_aggregator
    check_capacity scans_per_ticket
    current_value ← db_select bolt bucket_aggregator output
    saved_scans ← lift (decode codec current_value)
    save_or_release output scans_per_ticket ignore_the_quantity
        (with_current current_scan saved_scans)
