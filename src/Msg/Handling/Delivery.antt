-- ===== src/Msg/Handling/Delivery.antt =====
-- What MsgHandling does with one message, from its text to the outputs.
use postee.Prelude.{
  String, Bool, true, false, ◌∷◌, ◌≡◌, ◌≢◌, ◌∙◌, refl, Result, ok, err, done, panicked, is_empty,
  ◌&&◌,
}
use postee.Prelude.Int.{pos, ltb_ℤ}
use postee.Db.Bolt.{Bolt}
use postee.Db.Aggregator.{Content}
use postee.Db.Stats.{register_plgn_invctn}
use postee.Msg.Value.{
  Decoded, nil_map, a_map, Fields, set_field, get_field, obj, str, field, no_fields,
}
use postee.Msg.World.{World, Inpteval, Services, logged}
use postee.Msg.Handling.{
  application_scope_owners, with_owners, deliver, with_postee, process, match_then, decode_then,
  handle, msg_handling, send, remember,
}

module _ {bolt : Bolt} (services : Services bolt) (output : String) (inpteval : Inpteval) where
  rejected :
      (input server : String) (w : World bolt) (r : Result Decoded)
      → ((decoded : Decoded)
          → r ≡ ok decoded
          → services.does_match_rego_criteria decoded w.route.input_files w.route.input ≢ ok true)
      → logged (decode_then services output inpteval input w.route server r) w ≡ (done tt, w)
  unfolding decode_then match_then
  rejected input server w (err e) h = refl
  rejected input server w (ok decoded) h =
      unmatched (services.does_match_rego_criteria decoded w.route.input_files w.route.input)
        (h decoded refl)
    where
      unmatched :
          (r : Result Bool)
          → r ≢ ok true
          → logged
              (match_then services output inpteval r
                (process services output inpteval input decoded w.route server))
              w
            ≡ (done tt, w)
      unmatched (err e) n = refl
      unmatched (ok false) n = refl
      unmatched (ok true) n = absurd (n refl)

  -- A message that encoding/json cannot read into a map, or that it reads and the criteria of the route
  -- do not accept or fail on, changes nothing, and the call returns. The message `null` counts as read.
  pub msg_handling-rejected :
      (input server : String) (w : World bolt)
      → ((decoded : Decoded)
          → services.unmarshal input ≡ ok decoded
          → services.does_match_rego_criteria decoded w.route.input_files w.route.input ≢ ok true)
      → msg_handling services output inpteval input server w ≡ (done tt, w)
  unfolding msg_handling handle
  msg_handling-rejected input server w h = rejected input server w (services.unmarshal input) h

  -- Where the message and the criteria are read and accepted, the call goes on with the message.
  pub accepted :
      (input server : String) (w : World bolt) (decoded : Decoded)
      → services.unmarshal input ≡ ok decoded
      → services.does_match_rego_criteria decoded w.route.input_files w.route.input ≡ ok true
      → msg_handling services output inpteval input server w
        ≡ logged (process services output inpteval input decoded w.route server) w
  unfolding msg_handling handle decode_then match_then
  accepted input server w decoded e m = rw (e, decode_then) (rw (m, match_then) refl)

  -- A message `null` that the criteria accept ends in a panic, where the route asks for no unique
  -- properties; nothing is stored or sent.
  pub msg_handling-null :
      (input server : String) (w : World bolt)
      → services.unmarshal input ≡ ok nil_map
      → services.does_match_rego_criteria nil_map w.route.input_files w.route.input ≡ ok true
      → is_empty w.route.plugins.unique_message_props ≡ true
      → msg_handling services output inpteval input server w ≡ (panicked, w)
  unfolding process remember with_postee application_scope_owners get_field
  msg_handling-null input server w e m u = accepted input server w nil_map e m ∙ rw u refl

  -- Where the message is read into a map that the criteria accept, its owners are read and the template
  -- does not fail, and the route asks for neither unique properties nor aggregation, the content is
  -- handed to the output at once and counted there.
  pub msg_handling-immediate :
      (input server owners : String) (fs : Fields) (content : Content) (w : World bolt)
      → services.unmarshal input ≡ ok (a_map fs)
      → services.does_match_rego_criteria (a_map fs) w.route.input_files w.route.input ≡ ok true
      → is_empty w.route.plugins.unique_message_props ≡ true
      → application_scope_owners (a_map fs) ≡ done owners
      → inpteval.eval
          (set_field "postee" (obj (field "AquaServer" (str server) no_fields)) fs)
          server
        ≡ done content
      → (ltb_ℤ (pos 0) w.route.plugins.aggregate_message_number
          && inpteval.is_aggregation_supported)
        ≡ false
      → (ltb_ℤ (pos 0) w.route.plugins.aggregate_timeout_seconds
          && inpteval.is_aggregation_supported)
        ≡ false
      → ((msg_handling services output inpteval input server w).1.sent
          ≡ (output, with_owners owners content) ∷ w.sent)
        × ((msg_handling services output inpteval input server w).1.file
            ≡ (register_plgn_invctn bolt output w.file).1)
  unfolding process remember with_postee deliver send
  msg_handling-immediate input server owners fs content w e m u o v n t =
      rw (accepted input server w (a_map fs) e m) (rw o (rw u (rw v (rw n (rw t (refl, refl))))))
