-- ===== src/Msg/Tests.antt =====
-- The handling of messages on small messages.
use postee.Prelude.{
  Option, some, String, true, false, List, [], ◌∷◌, ◌≡◌, ◌≢◌, ◌⊎◌, refl, Result, ok, err, Error,
  done, failed, ◌==◌, if◌then◌else◌, All, arith, eq_iff,
}
use postee.Prelude.Int.{pos}
use postee.Prelude.Text.{itoa, split, join, Lacks}
use postee.Routes.{InputRoute, no_channel}
use postee.Db.Memory.{memory, memory-BoltLaws, put, create, entries_of}
use postee.Db.Access.{
  bucket_name, bucket_aggregator, SameValues, open_db, init, db_select, db_insert,
}
use postee.Db.Aggregator.{Content, aggregate_scans, decode}
use postee.Db.Aggregator.Queue.{HasQueue}
use postee.Db.Aggregator.TextCodec
use postee.Db.Aggregator.TextCodec.{text_codec, text_codec-CodecLaws, write_scans}
use postee.Msg.Logs.{bytes, shown, prn_input_logs}
use postee.Msg.Scheduler.{tick, stop, run}
use postee.Msg.Scheduler.Taking.{Queued}
use postee.Msg.Scheduler.Flushing.{Flushed, run-Flushed, run-sent}
use postee.Msg.Value.{
  Value, str, num, null, arr, obj, bool, maps, Decoded, nil_map, a_map, Fields, field, no_fields,
  get_field,
}
use postee.Msg.UniqueKey.{get_single_value, get_message_unique_id}
use postee.Msg.UniqueKey.Paths.{Selects, get_single_value_lem}
use postee.Msg.World.{World, Inpteval, Services}
use postee.Rego.Criteria.{
  Criteria, Loaded, is_used_rego_files, build_rego_loader, does_match_rego_criteria,
}
use postee.Rego.Service.{with_criteria, msg_handling-allowed}
use postee.Msg.Handling.{msg_handling, with_owners, application_scope_owners}
use postee.Outputs.Recipients.{get_app_scope_owners}
use postee.Msg.Handling.Owners.{texts, get_app_scope_owners-with_owners}
use postee.Msg.Handling.Sending.{msg_handling-sent}
use postee.Msg.Handling.Rendered.{IsImmediate, IsRendered, msg_handling-IsRendered}
use postee.Msg.Handling.Delivery.{msg_handling-rejected, msg_handling-immediate}
use postee.Msg.Handling.Duplicate.{msg_handling-known}

abbrev route_for : List String → InputRoute
route_for props = record {
  name = "route";
  input = "input.image == \"alpine\"";
  input_files = [];
  outputs = "mail" ∷ [];
  plugins = record {
    aggregate_message_number = pos 0;
    aggregate_message_timeout = "";
    aggregate_timeout_seconds = pos 0;
    unique_message_props = props;
    unique_message_timeout = "";
    unique_message_timeout_seconds = pos 0;
  };
  template = "raw";
  scheduling = no_channel;
}

abbrev message : Fields
message = field "image" (str "alpine") no_fields

-- The text `m` stands for the message, `null` for null; anything else is no JSON.
abbrev read : String → Result Decoded
read s = if s == "m" then ok (a_map message) else if s == "null" then ok nil_map else err "no JSON"

abbrev show_value : Value → String
show_value (str s) = s
show_value (num s) = s
show_value null = "<nil>"
show_value (bool true) = "true"
show_value (bool false) = "false"
show_value (arr _) = "[]"
show_value (maps _) = "[]"
show_value (obj _) = "map[]"

abbrev services : Services memory
services = record {
  codec = text_codec;
  date_fmt = itoa;
  now = pos 0;
  show = show_value;
  unmarshal = read;
  does_match_rego_criteria = λ decoded files rule. ok true;
}

abbrev inpteval : Inpteval
inpteval = record {
  eval = λ fields server. done (("title", "scan") ∷ []);
  build_aggregated_content = λ scans. done [];
  is_aggregation_supported = false;
}

abbrev fresh : List String → World memory
fresh props = record { file = []; route = route_for props; sent = [] }

abbrev seen : World memory
seen = record {
  file = put bucket_name "alpine" "m" ∷ create bucket_name ∷ [];
  route = route_for ("image" ∷ []);
  sent = [];
}

msg_handling-sent_example :
    (((msg_handling services "mail" inpteval "m" "srv" (fresh [])).1.sent ≡ [])
      ⊎ ((c : Content) × ((msg_handling services "mail" inpteval "m" "srv" (fresh [])).1.sent
            ≡ ("mail", c) ∷ [])))
    × ((e : Error) → (msg_handling services "mail" inpteval "m" "srv" (fresh [])).0 ≢ failed e)
msg_handling-sent_example = msg_handling-sent services "mail" inpteval "m" "srv" (fresh [])

not_decoded : (decoded : Decoded) → read "text" ≡ ok decoded → ok true ≢ ok true
not_decoded decoded e f = cc

msg_handling-rejected_example :
    msg_handling services "mail" inpteval "text" "srv" (fresh []) ≡ (done tt, fresh [])
msg_handling-rejected_example =
    msg_handling-rejected services "mail" inpteval "text" "srv" (fresh []) not_decoded

-- The route collects no messages.
immediate : IsImmediate services "mail" inpteval (route_for [])
immediate = record { no_number = refl; no_time = refl }

msg_handling-IsRendered_example :
    ((msg_handling services "mail" inpteval "m" "srv" (fresh [])).1.sent ≡ [])
    ⊎ ((c : Content) × IsRendered services "mail" inpteval "m" "srv" c
        × ((msg_handling services "mail" inpteval "m" "srv" (fresh [])).1.sent ≡ ("mail", c) ∷ []))
msg_handling-IsRendered_example =
    msg_handling-IsRendered services "mail" inpteval "m" "srv" (fresh []) immediate

msg_handling-known_example :
    ((msg_handling services "mail" inpteval "m" "srv" seen).1.sent ≡ [])
    × SameValues memory seen.file (msg_handling services "mail" inpteval "m" "srv" seen).1.file
unfolding get_message_unique_id split join get_field entries_of
msg_handling-known_example =
    msg_handling-known memory-BoltLaws services "mail" inpteval "m" "srv" "alpine" (a_map message)
      seen refl refl refl refl refl

-- A message with a map in it.
abbrev nested : Fields
nested = field "image" (obj (field "name" (str "alpine") no_fields)) no_fields

get_single_value_lem_example :
    ((v : Value) × Selects nested ("image" ∷ "name" ∷ []) v
      × (get_single_value show_value nested ("image" ∷ "name" ∷ []) ≡ done (show_value v)))
    ⊎ (((v : Value) → ¬ Selects nested ("image" ∷ "name" ∷ []) v)
        × (get_single_value show_value nested ("image" ∷ "name" ∷ []) ≡ done ""))
get_single_value_lem_example = get_single_value_lem show_value nested "image" ("name" ∷ [])

abbrev allowing : Criteria
allowing = record {
  Query = Loaded;
  prepare = λ loaded. ok loaded;
  eval = λ query input. ok (some (bool true) ∷ []);
  rego_filters_path = "";
  join_path = λ a b. b;
}

abbrev guarded : Services memory
guarded = with_criteria allowing services

is_sent :
    (msg_handling guarded "mail" inpteval "m" "srv" (fresh [])).1.sent
    ≡ ("mail", with_owners "" (("title", "scan") ∷ [])) ∷ []
unfolding application_scope_owners get_field does_match_rego_criteria is_used_rego_files
is_sent =
    (msg_handling-immediate guarded "mail" inpteval "m" "srv" "" message (("title", "scan") ∷ [])
      (fresh []) refl refl refl refl refl refl refl).0

moved : (msg_handling guarded "mail" inpteval "m" "srv" (fresh [])).1.sent ≢ []
moved e = let f = is_sent in cc

msg_handling-allowed_example :
    (decoded : Decoded) × (read "m" ≡ ok decoded)
    × (((is_used_rego_files [] ≡ false) × ((route_for []).input ≡ ""))
        ⊎ ((query : Loaded) × (rest : List (Option Value)) × (ok
                (build_rego_loader allowing [] (route_for []).input)
              ≡ ok query)
            × (ok (some (bool true) ∷ []) ≡ ok (some (bool true) ∷ rest))))
msg_handling-allowed_example =
    msg_handling-allowed allowing services "mail" inpteval "m" "srv" (fresh []) moved

abbrev owned : Fields
owned = field "application_scope_owners" (arr (texts ("a@b" ∷ "c@d" ∷ []))) no_fields

owners_given : get_field "application_scope_owners" owned ≡ some (arr (texts ("a@b" ∷ "c@d" ∷ [])))
unfolding get_field
owners_given = refl

no_semicolons : All (Lacks b';') ("a@b" ∷ "c@d" ∷ [])
no_semicolons = ((refl, (refl, (refl, tt))), ((refl, (refl, (refl, tt))), tt))

joined_differs : ◌≢◌ {A = String} (join ("a@b" ∷ "c@d" ∷ []) ";") ""
unfolding join
joined_differs e = ground (arith, e, eq_iff "a@b;c@d" "")

get_app_scope_owners-with_owners_example :
    (text : String) × (application_scope_owners (a_map owned) ≡ done text)
    × (get_app_scope_owners (with_owners text []) ≡ some ("a@b" ∷ "c@d" ∷ []))
get_app_scope_owners-with_owners_example =
    get_app_scope_owners-with_owners owned "a@b" ("c@d" ∷ []) [] owners_given no_semicolons
      joined_differs

abbrev batching : Inpteval
batching = record inpteval { build_aggregated_content = λ scans. done (("title", "batch") ∷ []) }

abbrev scan : Content
scan = ("title", "scan") ∷ []

abbrev waiting : World memory
waiting = record (fresh []) {
  file = put bucket_aggregator "route" (write_scans (scan ∷ []) "") ∷ create bucket_aggregator ∷ [];
}

waiting-Queued : Queued services waiting (scan ∷ [])
unfolding decode entries_of TextCodec.read write_scans
waiting-Queued = refl

run-Flushed_example :
    Flushed memory-BoltLaws services text_codec-CodecLaws "mail" batching "route"
      (scan ∷ [])
      (("title", "batch") ∷ [])
      waiting
      (run services "mail" batching (tick ∷ tick ∷ stop ∷ []) waiting).1
run-Flushed_example =
    run-Flushed memory-BoltLaws services text_codec-CodecLaws "mail" batching
      (tick ∷ tick ∷ stop ∷ []) (scan ∷ []) (("title", "batch") ∷ []) waiting refl waiting-Queued

can_be_taken :
    (aggregate_scans memory text_codec "route" [] (pos 0) false waiting.file).0 ≡ done (scan ∷ [])
unfolding aggregate_scans decode entries_of TextCodec.read write_scans open_db init db_select
    db_insert
can_be_taken = refl

run-sent_example :
    ((run services "mail" batching (tick ∷ tick ∷ []) waiting).1.sent
      ≡ ("mail", ("title", "batch") ∷ []) ∷ [])
    × HasQueue memory text_codec "route"
        (run services "mail" batching (tick ∷ tick ∷ []) waiting).1.file
        []
run-sent_example =
    run-sent memory-BoltLaws services text_codec-CodecLaws "mail" batching (tick ∷ []) scan []
      (scan ∷ []) (("title", "batch") ∷ []) waiting refl waiting-Queued can_be_taken

-- Only the first twenty bytes of a message are logged.
short_log :
    prn_input_logs (bytes "{\"image\":\"alpine:3.12\",\"secret\":1}" ∷ shown "error" ∷ [])
    ≡ bytes "{\"image\":\"alpine:3.1" ∷ shown "error" ∷ []
unfolding prn_input_logs
short_log = refl
