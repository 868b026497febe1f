-- ===== src/Msg/Handling.antt =====
-- msgservice/msghandling.go: MsgHandling.
pub mod Sending
pub mod Rendered
pub mod Delivery
pub mod Owners
pub mod Duplicate
pub mod Keys
pub mod Single
use postee.Prelude.{
  ℕ, String, Bool, true, false, not, Option, none, some, List, [], ◌∷◌, ◌&&◌, ◌==◌, Result, ok, err,
  Outcome, done, failed, panicked, Action, pure, fail, panic, lift, ◌>>=◌, ◌>>◌, if◌then◌else◌,
  is_empty, insert,
}
use postee.Prelude.Int.{ℤ, pos, ltb_ℤ, leb_ℤ, eqb_ℤ, mul_int, ◌+ℤ◌}
use postee.Prelude.Text.{join}
use postee.Routes.{InputRoute, is_scheduler_run, start_scheduler}
use postee.Db.Bolt.{Bolt}
use postee.Db.Messages.{may_be_store_message}
use postee.Db.Aggregator.{Content, aggregate_scans}
use postee.Db.Stats.{register_plgn_invctn}
use postee.Msg.Value.{
  Value, null, bool, num, str, arr, maps, obj, Items, no_items, item, Fields, no_fields, field,
  get_field, set_field, Decoded, nil_map, a_map, fields_of,
}
use postee.Msg.UniqueKey.{get_message_unique_id}
use postee.Msg.World.{World, Inpteval, Services, on_file, logged}

-- `owner.(string)` for each element: any other element is a panic.
abbrev owner_texts : Items → Outcome (List String)
owner_texts no_items = done []
owner_texts (item (str owner) rest) = elim (owner_texts rest) [ done l ↦ done (owner ∷ l) | o ↦ o ]
owner_texts (item _ rest) = panicked

abbrev join_owners : Outcome (List String) → Outcome String
join_owners (done l) = done (join l ";")
join_owners (failed e) = failed e
join_owners panicked = panicked

-- `applicationScopeOwnersObj.([]interface{})`: any other value is a panic.
abbrev owners_in : Option Value → Outcome String
owners_in none = done ""
owners_in (some (arr items)) = join_owners (owner_texts items)
owners_in (some _) = panicked

unfoldable pub application_scope_owners : Decoded → Outcome String
application_scope_owners input = owners_in (get_field "application_scope_owners" (fields_of input))

-- The seconds as a `time.Duration`, which wraps.
abbrev pub duration : ℤ → ℤ
duration seconds = mul_int seconds 1000000000

unfoldable pub calculate_expired : ℤ → ℤ → Option ℤ
calculate_expired now timeout_seconds =
    if eqb_ℤ timeout_seconds (pos 0) then none else some (now +ℤ duration timeout_seconds)

-- content["owners"] = owners
abbrev pub with_owners : String → Content → Content
with_owners owners content = if owners == "" then content else insert "owners" owners content

module _ {bolt : Bolt} (services : Services bolt) where
  abbrev outcome : {A : Type 0} → Outcome A → Action (World bolt) A
  outcome o w = (o, w)

  -- The delivery itself runs in a goroutine of its own; its error is logged there.
  unfoldable pub send : String → Content → Action (World bolt) (Unit {0})
  send output content w =
      logged (on_file (register_plgn_invctn bolt output))
        (record w { sent = (output, content) ∷ w.sent })

  -- The queue that comes back; an error of the database is logged and nothing is sent.
  abbrev pub queue_of : Outcome (List Content) → Outcome (List Content)
  queue_of (failed e) = done []
  queue_of o = o

  unfoldable pub aggregate_scan_and_get_queue :
      String → Content → ℤ → Bool → Action (World bolt) (List Content)
  aggregate_scan_and_get_queue name current counts ignore_length w = (
    queue_of (aggregate_scans bolt services.codec name current counts ignore_length w.file).0,
    record w {
      file = (aggregate_scans bolt services.codec name current counts ignore_length w.file).1;
    },
  )

  -- The channel is made and the scheduler's goroutine started; `time.NewTicker` panics unless the
  -- period is positive.
  unfoldable pub run_scheduler : ℤ → Action (World bolt) (Unit {0})
  run_scheduler seconds w =
      if leb_ℤ (duration seconds) (pos 0)
      then (panicked, w)
      else (done tt, record w { route = start_scheduler w.route })

  stop_unless : Bool → Action (World bolt) (Unit {0})
  stop_unless true = pure tt
  stop_unless false = fail "the same message was received before"

  pub remember : String → Decoded → InputRoute → Action (World bolt) (Unit {0})
  remember input decoded route =
      if is_empty route.plugins.unique_message_props then pure tt else (do
        key ← outcome (
            get_message_unique_id services.show (fields_of decoded)
              route.plugins.unique_message_props)
        was_stored ← on_file (
            may_be_store_message bolt services.date_fmt input key
              (calculate_expired services.now route.plugins.unique_message_timeout_seconds))
        stop_unless was_stored)

  -- in["postee"] = posteeOpts, which panics on a nil map.
  pub with_postee : Decoded → String → Action (World bolt) Fields
  with_postee nil_map server = panic
  with_postee (a_map fs) server =
      pure (set_field "postee" (obj (field "AquaServer" (str server) no_fields)) fs)

  module _ (output : String) (inpteval : Inpteval) where
    send_batch : List Content → Action (World bolt) (Unit {0})
    send_batch [] = pure tt
    send_batch (scan ∷ scans) = do
      content ← outcome (inpteval.build_aggregated_content (scan ∷ scans))
      send output content

    schedule : InputRoute → Action (World bolt) (Unit {0})
    schedule route =
        if is_scheduler_run route
        then pure tt
        else run_scheduler route.plugins.aggregate_timeout_seconds

    deliver_by_number : InputRoute → Content → Action (World bolt) (Unit {0})
    deliver_by_number route content = do
      aggregated ←
          aggregate_scan_and_get_queue route.name content route.plugins.aggregate_message_number
            false
      send_batch aggregated

    deliver_by_time : InputRoute → Content → Action (World bolt) (Unit {0})
    deliver_by_time route content = do
      aggregate_scan_and_get_queue route.name content (pos 0) true
      schedule route

    pub deliver : InputRoute → Content → Action (World bolt) (Unit {0})
    deliver route content =
        if ltb_ℤ (pos 0) route.plugins.aggregate_message_number && inpteval.is_aggregation_supported
        then deliver_by_number route content
        else if ltb_ℤ (pos 0) route.plugins.aggregate_timeout_seconds
            && inpteval.is_aggregation_supported
        then deliver_by_time route content
        else send output content

    pub process : String → Decoded → InputRoute → String → Action (World bolt) (Unit {0})
    process input decoded route server = do
      owners ← outcome (application_scope_owners decoded)
      remember input decoded route
      fields ← with_postee decoded server
      content ← outcome (inpteval.eval fields server)
      deliver route (with_owners owners content)

    pub match_then : Result Bool → Action (World bolt) (Unit {0}) → Action (World bolt) (Unit {0})
    match_then (err e) next = fail e
    match_then (ok false) next = fail "the input does not match the rule"
    match_then (ok true) next = next

    pub decode_then : String → InputRoute → String → Result Decoded → Action (World bolt) (Unit {0})
    decode_then input route server (err e) = fail e
    decode_then input route server (ok decoded) =
        match_then (services.does_match_rego_criteria decoded route.input_files route.input)
          (process input decoded route server)

    -- An early return is a failure here, and is logged by `msg_handling`.
    unfoldable pub handle : String → String → Action (World bolt) (Unit {0})
    unfolding decode_then match_then process deliver deliver_by_number deliver_by_time schedule
        send_batch with_postee remember stop_unless
    handle input server w = decode_then input w.route server (services.unmarshal input) w

    unfoldable pub msg_handling : String → String → Action (World bolt) (Unit {0})
    unfolding handle
    msg_handling input server = logged (handle input server)
