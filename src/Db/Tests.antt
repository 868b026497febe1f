-- ===== src/Db/Tests.antt =====
-- Runs of dbservice over `memory`, and its theorems at concrete inputs.
use mathlib.Core.List.{Perm}
use postee.Prelude.{ℕ, true, false, none, some, List, [], ◌∷◌, ◌++◌, ◌≡◌, refl, Result, ok, done}
use postee.Prelude.Int.{pos, add_int}
use postee.Prelude.Text.{itoa_nat, itoa, atoi, ltb_text}
use postee.Db.Memory.{memory, memory-BoltLaws, create, put, entries_of, has_bucket_of}
use postee.Db.Access.{
  bucket_name, bucket_expiry_dates, open_db, init, db_select, db_insert, db_delete,
}
use postee.Db.Messages.{may_be_store_message}
use postee.Db.Messages.Once.{is_known, Call, stored_under, stored_under_lem}
use postee.Db.Expiry.{remove_expired, check_expired_data, check_size_limit}
use postee.Db.Expiry.Lifetime.{is_known-remove_expired}
use postee.Db.Aggregator.{Content, aggregate_scans, decode}
use postee.Db.Aggregator.Queue.{HasQueue}
use postee.Db.Aggregator.Conservation.{Arrival, file_after, handed_out, entered, handed_out-Perm}
use postee.Db.Aggregator.TextCodec.{text_codec, text_codec-CodecLaws, read, write_scans}
use postee.Db.Stats.{register_plgn_invctn}
use postee.Db.SharedConfig.{ensure_api_key, get_api_key, generate_api_key, hex_encode}
use postee.Db.SharedConfig.Key.{get_api_key-ensure_api_key}

abbrev opened : Unit {0}
unfolding open_db init db_select db_insert db_delete entries_of has_bucket_of may_be_store_message
    aggregate_scans decode read write_scans remove_expired check_size_limit check_expired_data
    ltb_text register_plgn_invctn ensure_api_key get_api_key generate_api_key hex_encode itoa
    itoa_nat atoi add_int
opened = tt

first_call : (may_be_store_message memory itoa "scan" "key" (some (pos 5)) []).0 ≡ done true
unfolding opened
first_call = refl

abbrev calls : List Call
calls =
    record { message = "a"; key = "k"; expired = none }
    ∷ record { message = "b"; key = "k"; expired = none }
    ∷ []

stored_under_lem_example : stored_under memory itoa "k" calls [] ≡ 1
unfolding opened
stored_under_lem_example = stored_under_lem memory-BoltLaws itoa "k" calls [] (refl, (refl, tt))

-- A message that expired at 5, and the date by which it is found.
abbrev dated : memory.File
dated =
    put bucket_expiry_dates "5" "key"
    ∷ create bucket_expiry_dates
    ∷ put bucket_name "key" "scan"
    ∷ create bucket_name
    ∷ []

expired_is_gone :
    memory.get (check_expired_data memory itoa (pos 7) dated).1 bucket_name "key" ≡ none
unfolding opened
expired_is_gone = refl

too_large : memory.has_bucket (check_size_limit memory (pos 3) dated).1 bucket_name ≡ false
unfolding opened
too_large = refl

abbrev stored_till_5 : memory.File
stored_till_5 = (may_be_store_message memory itoa "scan" "key" (some (pos 5)) []).1

is_known-remove_expired_example :
    is_known memory (remove_expired memory itoa (pos 7) stored_till_5).1 "key" ≡ ltb_text "7" "5"
unfolding opened
is_known-remove_expired_example =
    is_known-remove_expired memory-BoltLaws itoa "scan" "key" (pos 5) (pos 7) [] (λ j e. cc) refl
      refl

abbrev scan_a : Content
scan_a = ("title", "a") ∷ []

abbrev scan_b : Content
scan_b = ("title", "b") ∷ []

abbrev one_queued : memory.File
one_queued = (aggregate_scans memory text_codec "route" scan_a (pos 2) false []).1

batch_of_two :
    (aggregate_scans memory text_codec "route" scan_b (pos 2) false one_queued).0
    ≡ done (scan_b ∷ scan_a ∷ [])
unfolding opened
batch_of_two = refl

one_is_queued : HasQueue memory text_codec "route" one_queued (scan_a ∷ [])
unfolding opened
one_is_queued = refl

abbrev arrivals : List Arrival
arrivals =
    record { scan = scan_a; per_ticket = pos 0; ignore = true }
    ∷ record { scan = []; per_ticket = pos 0; ignore = false }
    ∷ record { scan = scan_b; per_ticket = pos 2; ignore = false }
    ∷ []

handed_out-Perm_example :
    (q : List Content) × HasQueue memory text_codec "route"
      (file_after memory text_codec "route" arrivals [])
      q
    × Perm
        (handed_out memory text_codec "route" arrivals [] ++ q)
        (entered memory text_codec "route" arrivals [] [])
unfolding opened
handed_out-Perm_example =
    handed_out-Perm memory-BoltLaws text_codec-CodecLaws "route" arrivals [] [] refl

abbrev zeros : ℕ → Result (List ℕ)
zeros n = ok (0 ∷ 255 ∷ [])

get_api_key-ensure_api_key_example :
    get_api_key memory (ensure_api_key memory zeros []).1 ≡ ok (hex_encode (0 ∷ 255 ∷ []))
unfolding opened
get_api_key-ensure_api_key_example =
    get_api_key-ensure_api_key memory-BoltLaws zeros [] (0 ∷ 255 ∷ []) refl refl refl
