-- ===== src/Db/SharedConfig.antt =====
-- dbservice/sharedcfg.go: the key of the reload endpoint.
pub mod Key
use Prim.Native.String.{[], ◌∷◌, ◌++◌, char_at}
use postee.Prelude.{
  ℕ, ◌/◌, ◌%◌, String, Option, none, some, List, Result, ok, err, Action, lift, ◌>>=◌, ◌>>◌,
  if◌then◌else◌,
}
use postee.Db.Bolt.{Bolt}
use postee.Db.Access.{bucket_output_stats, bucket_shared_config, open_db, init, db_insert}

abbrev pub api_key_name : String
api_key_name = "POSTEE_API_KEY"

abbrev hex_digit : ℕ → String
hex_digit n = char_at "0123456789abcdef" n ∷ []

-- `hex.EncodeToString`
unfoldable pub hex_encode : List ℕ → String
hex_encode List.[] = ""
hex_encode (List.◌∷◌ b bytes) = hex_digit (b / 16) ++ hex_digit (b % 16) ++ hex_encode bytes

-- `read_full` stands for `io.ReadFull(rand.Reader, _)` on a buffer of the given length.
unfoldable pub generate_api_key : (read_full : ℕ → Result (List ℕ)) → ℕ → Result String
generate_api_key read_full length = elim (read_full length) [
  | err e ↦ err e
  | ok bytes ↦ ok (hex_encode bytes)
]

module _ (bolt : Bolt) where
  open bolt use {File, open_file, has_bucket, get}

  -- The bucket that is created first is that of the statistics, as in the source.
  unfoldable pub ensure_api_key : (read_full : ℕ → Result (List ℕ)) → Action File (Unit {0})
  ensure_api_key read_full = do
    open_db bolt
    init bolt bucket_output_stats
    new_api_key ← lift (generate_api_key read_full 32)
    db_insert bolt bucket_shared_config api_key_name new_api_key

  -- A missing key is the empty text.
  abbrev key_text : Option String → String
  key_text none = ""
  key_text (some bytes) = bytes

  unfoldable pub get_api_key : File → Result String
  get_api_key f = elim (open_file f) [
    | some e ↦ err e
    | none ↦
        if has_bucket f bucket_shared_config
        then ok (key_text (get f bucket_shared_config api_key_name))
        else err "no bucket"
  ]
