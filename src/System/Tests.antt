-- ===== src/System/Tests.antt =====
-- Two outputs on one route that asks for unique messages.
use postee.Prelude.{
  String, true, none, List, [], ◌∷◌, ◌≡◌, arith, ok, err, refl, All, lookup, Result,
}
use postee.Prelude.Int.{pos}
use postee.Prelude.Text.{itoa, split, join, replace_all}
use postee.Routes.{InputRoute, no_channel}
use postee.Db.Memory.{memory, memory-BoltLaws}
use postee.Db.Aggregator.TextCodec.{text_codec}
use postee.Data.{SlackBlock}
use postee.Outputs.Records.{stdout, get_name}
use postee.Layout.Legacy.{LegacyServices}
use postee.Msg.Value.{Value, str, obj, a_map, field, no_fields, get_field}
use postee.Msg.UniqueKey.{get_message_unique_id}
use postee.Msg.World.{Services}
use postee.Rego.Eval.{Engine}
use postee.Rego.Build.{Evaluator, rego}
use postee.Router.State.{Router}
use postee.Router.Dispatch.{Dispatch, handle, handle_route, on_message}
use postee.Msg.Handling.{msg_handling, application_scope_owners, calculate_expired, send}
use postee.Db.Messages.{may_be_store_message}
use postee.Db.Access.{open_db, init, db_select, db_insert, db_delete}
use postee.Db.Expiry.{remove_expired, check_size_limit, check_expired_data}
use postee.Db.Memory.{has_bucket_of, entries_of}
use postee.Rego.Service.{inpteval_of}
use postee.Rego.Eval.{eval, is_aggregation_supported}
use postee.Db.Stats.{register_plgn_invctn, stored_count}
use postee.Prelude.Text.{atoi, ltb_text}
use postee.System
use postee.System.{
  Shared, Schedule, Turn, check, check_data, idle, turn, run_dispatch, run_turn, run_turns, run_all,
}
use postee.System.Delivered.{From, Hands, on_message-Hands}
use postee.System.Trace.{Node, Event, scan, listen, turn_of, pick, run}
use postee.System.Trace.Order.{Moves, run-Moves}
use postee.System.Trace.Accounted.{Accounted}
use postee.System.Trace.Provenance.{run-Accounted}
use postee.Router.State.{returned}
use postee.Web.{scan_handler}
use postee.System.Once.{AtMostOne, Keyed, Lasts, run_turns-once}
use postee.System.Unique.{handle_route-single}

-- What the template makes of every message.
abbrev answer : Value
answer = obj (field "title" (str "scan") (field "result" (str "text") no_fields))

abbrev engine : Engine
engine = record {
  Query = String;
  eval = λ query input. ok ((answer ∷ []) ∷ []);
  marshal = λ v. ok "";
  unmarshal_maps = λ text. none;
}

abbrev template : Evaluator engine
template = rego (record { prep_query = "query"; aggr_query = none; is_package_defined = true })

abbrev route : InputRoute
route = record {
  name = "route";
  input = "";
  input_files = [];
  outputs = "log" ∷ "copy" ∷ [];
  plugins = record {
    aggregate_message_number = pos 0;
    aggregate_message_timeout = "";
    aggregate_timeout_seconds = pos 0;
    unique_message_props = "image" ∷ [];
    unique_message_timeout = "";
    unique_message_timeout_seconds = pos 0;
  };
  template = "t";
  scheduling = no_channel;
}

abbrev router : Router engine
router = record {
  cfgfile = "cfg.yaml";
  aqua_server = "";
  outputs =
      ("log", stdout (record { name = "log" })) ∷ ("copy", stdout (record { name = "copy" })) ∷ [];
  input_routes = ("route", route) ∷ [];
  templates = ("t", template) ∷ [];
  db_size_limit = pos 0;
  checker = true;
  listeners = 1;
}

abbrev show_value : Value → String
show_value (str s) = s
show_value _ = ""

abbrev services : Services memory
services = record {
  codec = text_codec;
  date_fmt = itoa;
  now = pos 0;
  show = show_value;
  unmarshal = λ text. ok (a_map (field "image" (str text) no_fields));
  does_match_rego_criteria = λ decoded files rule. ok true;
}

abbrev legacy_services : LegacyServices
legacy_services = record {
  marshal_fields = λ fs. ok "{}";
  unmarshal_scan = λ text. err "no scan";
  show = λ v. "";
  query_escape = λ text. text;
}

abbrev marshal : SlackBlock → Result String
marshal block = ok "{}"

abbrev at_first : Shared memory
at_first = record { file = []; scheduling = []; sent = [] }

abbrev goroutine : String → Dispatch engine
goroutine name = record {
  input = "alpine";
  output = stdout (record { name = name });
  route = route;
  template = template;
  aqua_server = "";
}

-- The second output's goroutine takes its turn first.
abbrev order : List (Dispatch engine)
order = goroutine "copy" ∷ goroutine "log" ∷ []

goroutines : handle_route router "route" "alpine" ≡ goroutine "log" ∷ goroutine "copy" ∷ []
unfolding handle_route lookup
goroutines = refl

copy_first : Schedule (goroutine "log" ∷ goroutine "copy" ∷ []) order
copy_first = turn (goroutine "log" ∷ []) [] (turn [] [] idle)

handle_route-single_example :
    AtMostOne [] (run_all legacy_services marshal services order at_first).1.sent
unfolding lookup get_message_unique_id split join get_field
handle_route-single_example =
    handle_route-single legacy_services marshal services memory-BoltLaws "alpine" router "route"
      "alpine" route (a_map (field "image" (str "alpine") no_fields)) order at_first refl refl refl
      refl (rw goroutines copy_first)

goroutine-Keyed : (name : String) → Keyed legacy_services marshal services "alpine" (goroutine name)
unfolding get_message_unique_id split join get_field
goroutine-Keyed name = record {
  decoded = a_map (field "image" (str "alpine") no_fields);
  reads = refl;
  asks = refl;
  names = refl;
}

-- Between the two turns, a check for more than a thousand bytes and for what has expired.
abbrev turns : List (Turn engine)
turns =
    System.goroutine (goroutine "copy")
    ∷ check (pos 1000) itoa (pos 7)
    ∷ System.goroutine (goroutine "log")
    ∷ []

turns-Lasts : Lasts legacy_services marshal services memory-BoltLaws "alpine" turns at_first
unfolding run_dispatch check_data run_turn msg_handling application_scope_owners get_field
    get_message_unique_id split may_be_store_message open_db init db_select has_bucket_of entries_of
    db_insert db_delete join calculate_expired inpteval_of eval send register_plgn_invctn
    stored_count get_name lookup itoa is_aggregation_supported atoi ltb_text check_size_limit
    check_expired_data remove_expired
turns-Lasts = (λ k. refl, tt)

run_turns-once_example :
    AtMostOne [] (run_turns legacy_services marshal services turns at_first).1.sent
run_turns-once_example =
    run_turns-once legacy_services marshal services memory-BoltLaws "alpine" turns at_first
      (goroutine-Keyed "copy", (tt, (goroutine-Keyed "log", tt))) turns-Lasts

all_goroutines : on_message router "alpine" ≡ goroutine "log" ∷ goroutine "copy" ∷ []
unfolding on_message handle handle_route lookup replace_all
all_goroutines = refl

on_message-Hands_example :
    All (From router (replace_all "alpine" b'`' "'")) order
    × Hands order [] (run_all legacy_services marshal services order at_first).1.sent
on_message-Hands_example =
    on_message-Hands legacy_services marshal services router "alpine" order at_first
      (rw all_goroutines copy_first)

-- The second output has the message, and the first one goes without.
only_copy :
    (run_all legacy_services marshal services order at_first).1.sent
    ≡ ("copy", ("title", "scan") ∷ ("description", "text") ∷ ("url", "") ∷ []) ∷ []
unfolding run_all msg_handling application_scope_owners get_field get_message_unique_id split
    may_be_store_message open_db init db_select has_bucket_of entries_of db_insert join
    calculate_expired inpteval_of eval send register_plgn_invctn stored_count get_name lookup itoa
    is_aggregation_supported atoi ltb_text
only_copy = refl

abbrev empty_node : Node engine memory
empty_node = record { queue = []; taken = []; started = []; pool = []; shared = at_first }

-- A scan is posted and taken, and its two goroutines run, the second one first.
abbrev events : List Event
events = scan (ok "alpine") ∷ listen ∷ turn_of 1 ∷ turn_of 0 ∷ []

abbrev last_node : Node engine memory
last_node = record {
  queue = [];
  taken = "alpine" ∷ [];
  started = goroutine "log" ∷ goroutine "copy" ∷ [];
  pool = [];
  shared = (run_all legacy_services marshal services order at_first).1;
}

ends_there : run legacy_services marshal services router events empty_node ≡ returned last_node
unfolding run pick on_message handle handle_route replace_all scan_handler run_all msg_handling
    application_scope_owners get_field get_message_unique_id split may_be_store_message open_db init
    db_select has_bucket_of entries_of db_insert join calculate_expired inpteval_of eval send
    register_plgn_invctn stored_count get_name lookup itoa is_aggregation_supported atoi ltb_text
ends_there = refl

run-Moves_example : Moves empty_node last_node ("alpine" ∷ [])
run-Moves_example =
    run-Moves legacy_services marshal services router events empty_node last_node ends_there

run-Accounted_example : Accounted router last_node
run-Accounted_example =
    run-Accounted legacy_services marshal services router events empty_node last_node ends_there
      (record { routed = tt; sent = tt; pooled = tt; count = omega arith })
