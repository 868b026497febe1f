-- ===== src/Msg/Handling/Duplicate.antt =====
-- What MsgHandling does with a message whose key is known.
use postee.Prelude.{
  String, Bool, true, false, Option, none, some, ◌≡◌, ◌≢◌, refl, ok, Outcome, done, failed,
  panicked, Action, resume, is_empty, is_some,
}
use postee.Prelude.Int.{ℤ}
use postee.Db.Bolt.{Bolt, BoltLaws}
use postee.Db.Access.{SameValues, SameValues-refl}
use postee.Db.Messages.Once.{is_known}
use postee.Db.Messages.Behaviour.{Ends, broken, known, stored, half, may_be_store_message-Ends}
use postee.Msg.Value.{Decoded, fields_of}
use postee.Msg.UniqueKey.{get_message_unique_id}
use postee.Msg.World.{World, Inpteval, Services}
use postee.Msg.Handling.{
  application_scope_owners, calculate_expired, stop_unless, remember, process, msg_handling,
}
use postee.Msg.Handling.Delivery.{accepted}

lookup_clash : {o : Option String} → o ≡ none → is_some o ≡ true → ⊥
lookup_clash {o = none} e k = cc
lookup_clash {o = some v} e k = cc

module _ {bolt : Bolt} where
  -- The call does not go on, sends nothing and keeps the values of the file.
  record Stops {A : Type 0} (w : World bolt) (r : Outcome A × World bolt) : Type 0 where
    pub ends : (a : A) → r.0 ≢ done a
    pub sent : r.1.sent ≡ w.sent
    pub same : SameValues bolt w.file r.1.file

  Stops-resume :
      {A B : Type 0} (w : World bolt) (r : Outcome A × World bolt) (k : A → Action (World bolt) B)
      → Stops w r
      → Stops w (resume r.0 k r.1)
  Stops-resume w (done a, w') k h = absurd (h.ends a refl)
  Stops-resume w (failed e, w') k h = record { ends = λ b g. cc; sent = h.sent; same = h.same }
  Stops-resume w (panicked, w') k h = record { ends = λ b g. cc; sent = h.sent; same = h.same }

  Stops-first :
      {A B : Type 0} (w : World bolt) (o : Outcome A) (k : A → Action (World bolt) B)
      → ((a : A) → Stops w (k a w))
      → Stops w (resume o k w)
  Stops-first w (done a) k h = h a
  Stops-first w (failed e) k h = record {
    ends = λ b g. cc;
    sent = refl;
    same = SameValues-refl bolt w.file;
  }
  Stops-first w panicked k h = record {
    ends = λ b g. cc;
    sent = refl;
    same = SameValues-refl bolt w.file;
  }

module _ {bolt : Bolt} (laws : BoltLaws bolt) (services : Services bolt) (output : String)
    (inpteval : Inpteval) where
  after_lookup :
      {message key : String} {expired : Option ℤ} (w : World bolt) (o : Outcome Bool)
      (f' : bolt.File)
      → is_known bolt w.file key ≡ true
      → Ends bolt services.date_fmt message key expired w.file f' o
      → Stops w (resume o (stop_unless services) (record w { file = f' }))
  unfolding stop_unless
  after_lookup w _ f' k (broken e s) = record { ends = λ b g. cc; sent = refl; same = s }
  after_lookup w _ f' k (known old h s) = record { ends = λ b g. cc; sent = refl; same = s }
  after_lookup w _ f' k (stored h g) = absurd (lookup_clash h k)
  after_lookup w _ f' k (half e h g) = absurd (lookup_clash h k)

  remember-known :
      (input key : String) (decoded : Decoded) (w : World bolt)
      → is_empty w.route.plugins.unique_message_props ≡ false
      → get_message_unique_id services.show (fields_of decoded) w.route.plugins.unique_message_props
        ≡ done key
      → is_known bolt w.file key ≡ true
      → Stops w (remember services input decoded w.route w)
  unfolding remember
  remember-known input key decoded w u g k = rw u (
      rw g (
        after_lookup w _ _ k (
          may_be_store_message-Ends laws services.date_fmt input key
            (calculate_expired services.now w.route.plugins.unique_message_timeout_seconds)
            w.file)))

  process-known :
      (input server key : String) (decoded : Decoded) (w : World bolt)
      → is_empty w.route.plugins.unique_message_props ≡ false
      → get_message_unique_id services.show (fields_of decoded) w.route.plugins.unique_message_props
        ≡ done key
      → is_known bolt w.file key ≡ true
      → Stops w (process services output inpteval input decoded w.route server w)
  unfolding process
  process-known input server key decoded w u g k =
      Stops-first w (application_scope_owners decoded) _ λ owners.
        Stops-resume w (remember services input decoded w.route w) _
          (remember-known input key decoded w u g k)

  -- A message whose key is in the database is not sent, and the database keeps its values, also where
  -- the call fails or panics on the way.
  pub msg_handling-known :
      (input server key : String) (decoded : Decoded) (w : World bolt)
      → services.unmarshal input ≡ ok decoded
      → services.does_match_rego_criteria decoded w.route.input_files w.route.input ≡ ok true
      → is_empty w.route.plugins.unique_message_props ≡ false
      → get_message_unique_id services.show (fields_of decoded) w.route.plugins.unique_message_props
        ≡ done key
      → is_known bolt w.file key ≡ true
      → ((msg_handling services output inpteval input server w).1.sent ≡ w.sent)
        × SameValues bolt w.file (msg_handling services output inpteval input server w).1.file
  msg_handling-known input server key decoded w e m u g k =
      let s = process-known input server key decoded w u g k in
      rw (accepted services output inpteval input server w decoded e m) (s.sent, s.same)
