-- ===== src/Msg/Handling/Single.antt =====
-- What MsgHandling leaves where the route asks for unique messages and the key is known, or sent.
use postee.Prelude.{
  subst, String, Bool, true, false, Option, some, ◌∷◌, ◌≡◌, ◌≢◌, ◌∙◌, ap, refl, inl, inr, ◌⊎◌, ok,
  Result-cases, Outcome-cases, ◌>>=◌, Outcome, done, failed, panicked, Action, resume, is_empty,
  is_some, eq_refl,
}
use postee.Prelude.Int.{ℤ}
use postee.Db.Bolt.{Bolt, BoltLaws}
use postee.Db.Access.{bucket_name}
use postee.Db.Aggregator.{Content}
use postee.Db.Messages.Once.{is_known}
use postee.Db.Messages.Behaviour.{Ends, broken, known, stored, half, may_be_store_message-Ends}
use postee.Msg.Value.{Decoded, nil_map, a_map, fields_of}
use postee.Msg.UniqueKey.{get_message_unique_id}
use postee.Routes.{InputRoute}
use postee.Msg.World.{World, Inpteval, Services}
use postee.Msg.Handling.{
  application_scope_owners, calculate_expired, with_owners, outcome, stop_unless, remember,
  with_postee, deliver, process, msg_handling,
}
use postee.Msg.Handling.Sending.{
  SendsOnce, bind-SendsOnce, outcome-IsQuiet, with_postee-IsQuiet, deliver-SendsOnce,
}
use postee.Msg.Handling.Keys.{KeepsKeys, bind-KeepsKeys, outcome-KeepsKeys, deliver-KeepsKeys}
use postee.Msg.Handling.Delivery.{accepted, msg_handling-rejected}
use postee.Msg.Handling.Duplicate.{msg_handling-known}

-- The call sends nothing; or one content, and then the key is in the file.
pub data SendsKnown {bolt : Bolt} (key output : String) (w w' : World bolt) : Type 0 where
  unsent : w'.sent ≡ w.sent → SendsKnown key output w w'
  sent :
      (c : Content)
      → w'.sent ≡ (output, c) ∷ w.sent
      → is_known bolt w'.file key ≡ true
      → SendsKnown key output w w'

-- The message of the goroutine is read, and its route gives it the key.
pub record HasKey {bolt : Bolt} (services : Services bolt) (key input : String) (w : World bolt)
    : Type 0 where
  pub decoded : Decoded
  pub reads : services.unmarshal input ≡ ok decoded
  pub asks : is_empty w.route.plugins.unique_message_props ≡ false
  pub names :
      get_message_unique_id services.show (fields_of decoded) w.route.plugins.unique_message_props
      ≡ done key

module _ {bolt : Bolt} (laws : BoltLaws bolt) (services : Services bolt) (output : String)
    (inpteval : Inpteval) (key : String) where
  -- What comes after the store.
  abbrev go_on : Decoded → InputRoute → String → String → Action (World bolt) (Unit {0})
  go_on decoded route server owners = with_postee services decoded server >>= λ fields.
      outcome services (inpteval.eval fields server) >>= λ content.
      deliver services output inpteval route (with_owners owners content)

  with_postee-KeepsKeys :
      (decoded : Decoded) (server : String) → KeepsKeys (with_postee services decoded server)
  unfolding with_postee
  with_postee-KeepsKeys nil_map server = record { at = λ w k. refl }
  with_postee-KeepsKeys (a_map fs) server = record { at = λ w k. refl }

  go_on-KeepsKeys :
      (decoded : Decoded) (route : InputRoute) (server owners : String)
      → KeepsKeys (go_on decoded route server owners)
  go_on-KeepsKeys decoded route server owners =
      bind-KeepsKeys _ _ (with_postee-KeepsKeys decoded server) λ fields.
        bind-KeepsKeys {A = Content} (outcome services (inpteval.eval fields server)) _
          (outcome-KeepsKeys laws services _)
          λ content. deliver-KeepsKeys laws services output inpteval route _

  go_on-SendsOnce :
      (decoded : Decoded) (route : InputRoute) (server owners : String)
      → SendsOnce output (go_on decoded route server owners)
  go_on-SendsOnce decoded route server owners =
      bind-SendsOnce _ _ (with_postee-IsQuiet services decoded server) λ fields.
        bind-SendsOnce {A = Content} (outcome services (inpteval.eval fields server)) _
          (outcome-IsQuiet services _) λ content. deliver-SendsOnce services output inpteval route _

  -- The store ends the call, or the key is known after it.
  data Remembered (w : World bolt) : Outcome (Unit {0}) → World bolt → Type 0 where
    stops :
        (o : Outcome (Unit {0})) (w' : World bolt)
        → o ≢ done tt
        → w'.sent ≡ w.sent
        → Remembered w o w'
    goes :
        (w' : World bolt)
        → w'.sent ≡ w.sent
        → is_known bolt w'.file key ≡ true
        → Remembered w (done tt) w'

  after_store :
      {message : String} {expired : Option ℤ} (w : World bolt) (o : Outcome Bool) (f' : bolt.File)
      → Ends bolt services.date_fmt message key expired w.file f' o
      → let r = resume o (stop_unless services) (record w { file = f' }) in Remembered w r.0 r.1
  unfolding stop_unless
  after_store w _ f' (broken e s) = stops _ _ (λ h. cc) refl
  after_store w _ f' (known old h s) = stops _ _ (λ h. cc) refl
  after_store {message} w _ f' (stored h g) =
      let written : bolt.get f' bucket_name key ≡ some message =
        g bucket_name key ∙ rw (eq_refl key) refl in
      goes _ refl (ap is_some written)
  after_store w _ f' (half e h g) = stops _ _ (λ h. cc) refl

  remember-Remembered :
      (input : String) (decoded : Decoded) (w : World bolt)
      → is_empty w.route.plugins.unique_message_props ≡ false
      → get_message_unique_id services.show (fields_of decoded) w.route.plugins.unique_message_props
        ≡ done key
      → let r = remember services input decoded w.route w in Remembered w r.0 r.1
  unfolding remember
  remember-Remembered input decoded w u g = rw u (
      rw g (
        after_store w _ _ (
          may_be_store_message-Ends laws services.date_fmt input key
            (calculate_expired services.now w.route.plugins.unique_message_timeout_seconds)
            w.file)))

  after_go_on :
      (w w1 w' : World bolt)
      → w1.sent ≡ w.sent
      → is_known bolt w'.file key ≡ true
      → (w'.sent ≡ w1.sent) ⊎ ((c : Content) × (w'.sent ≡ (output, c) ∷ w1.sent))
      → SendsKnown key output w w'
  after_go_on w w1 w' s k (inl e) = unsent (e ∙ s)
  after_go_on w w1 w' s k (inr (c, e)) = sent c (e ∙ ap (λ l. (output, c) ∷ l) s) k

  resume-Remembered :
      (k : Action (World bolt) (Unit {0})) (w w1 : World bolt) (o : Outcome (Unit {0}))
      → KeepsKeys k
      → SendsOnce output k
      → Remembered w o w1
      → SendsKnown key output w (resume o (λ u. k) w1).1
  resume-Remembered k w _ _ kept once (stops (done tt) w1 n s) = absurd (n refl)
  resume-Remembered k w _ _ kept once (stops (failed e) w1 n s) = unsent s
  resume-Remembered k w _ _ kept once (stops panicked w1 n s) = unsent s
  resume-Remembered k w _ _ kept once (goes w1 s f) =
      after_go_on w w1 (k w1).1 s (ap is_some (kept.at w1 key) ∙ f) (once.at w1)

  process-SendsKnown :
      (input server : String) (decoded : Decoded) (w : World bolt)
      → is_empty w.route.plugins.unique_message_props ≡ false
      → get_message_unique_id services.show (fields_of decoded) w.route.plugins.unique_message_props
        ≡ done key
      → SendsKnown key output w (process services output inpteval input decoded w.route server w).1
  unfolding process
  process-SendsKnown input server decoded w u g =
      elim (Outcome-cases (application_scope_owners decoded)) [
        | inl (owners, e) ↦ rw e (
            resume-Remembered (go_on decoded w.route server owners) w _ _
              (go_on-KeepsKeys decoded w.route server owners)
              (go_on-SendsOnce decoded w.route server owners)
              (remember-Remembered input decoded w u g))
        | inr (inl (x, e)) ↦ rw e (unsent refl)
        | inr (inr e) ↦ rw e (unsent refl)
      ]

  refused :
      (input server : String) (w : World bolt)
      → (h : HasKey services key input w)
      → (services.does_match_rego_criteria h.decoded w.route.input_files w.route.input ≢ ok true)
      → msg_handling services output inpteval input server w ≡ (done tt, w)
  refused input server w h n =
      msg_handling-rejected services output inpteval input server w λ other v.
        let same : h.decoded ≡ other = let r = h.reads in cc in
        subst
          (λ (d : Decoded).
            services.does_match_rego_criteria d w.route.input_files w.route.input ≢ ok true)
          same n

  -- A call with the key sends nothing, or one content and the key is in the file afterwards.
  pub msg_handling-SendsKnown :
      (input server : String) (w : World bolt)
      → HasKey services key input w
      → SendsKnown key output w (msg_handling services output inpteval input server w).1
  msg_handling-SendsKnown input server w h =
      elim (Result-cases
        (services.does_match_rego_criteria h.decoded w.route.input_files w.route.input)) [
          | inl (true, m) ↦
              rw (accepted services output inpteval input server w h.decoded h.reads m)
                (process-SendsKnown input server h.decoded w h.asks h.names)
          | inl (false, m) ↦ rw (refused input server w h (λ e. cc)) (unsent refl)
          | inr (x, m) ↦ rw (refused input server w h (λ e. cc)) (unsent refl)
        ]

  -- Where the key is known already, a call with the key sends nothing, and the key stays.
  pub msg_handling_known :
      (input server : String) (w : World bolt)
      → HasKey services key input w
      → is_known bolt w.file key ≡ true
      → ((msg_handling services output inpteval input server w).1.sent ≡ w.sent)
        × (is_known bolt (msg_handling services output inpteval input server w).1.file key ≡ true)
  msg_handling_known input server w h k =
      elim (Result-cases
        (services.does_match_rego_criteria h.decoded w.route.input_files w.route.input)) [
          | inl (true, m) ↦
              let (s, same) =
                msg_handling-known laws services output inpteval input server key h.decoded w
                  h.reads m h.asks h.names k in
              (s, ap is_some (same.at bucket_name key) ∙ k)
          | inl (false, m) ↦ rw (refused input server w h (λ e. cc)) (refl, k)
          | inr (x, m) ↦ rw (refused input server w h (λ e. cc)) (refl, k)
        ]
