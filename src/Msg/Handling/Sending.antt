-- ===== src/Msg/Handling/Sending.antt =====
-- How often and when a message is handed to its output.
use postee.Prelude.{
  String, Bool, true, false, List, [], ◌∷◌, ◌≡◌, ◌≢◌, ap, ◌∙◌, ◌⊎◌, inl, inr, refl, arith, Result,
  ok, err, Error, Outcome, done, failed, panicked, Action, pure, fail, panic, resume, ◌>>=◌,
  is_empty, Bool-cases, ◌&&◌,
}
use postee.Prelude.Int.{ℤ, pos, ltb_ℤ}
use postee.Routes.{InputRoute, is_scheduler_run}
use postee.Db.Bolt.{Bolt}
use postee.Db.Aggregator.{Content}
use postee.Db.Messages.{may_be_store_message}
use postee.Msg.Value.{Decoded, nil_map, a_map, fields_of}
use postee.Msg.UniqueKey.{get_message_unique_id}
use postee.Msg.World.{World, Inpteval, Services, on_file, log_error}
use postee.Msg.Handling.{
  application_scope_owners, calculate_expired, with_owners, outcome, send,
  aggregate_scan_and_get_queue, run_scheduler, stop_unless, remember, with_postee, send_batch,
  schedule, deliver, deliver_by_number, deliver_by_time, process, match_then, decode_then, handle,
  msg_handling,
}

shift :
    {output : String} {before between after : List (String × Content)}
    → between ≡ before
    → (after ≡ between) ⊎ ((c : Content) × (after ≡ (output, c) ∷ between))
    → (after ≡ before) ⊎ ((c : Content) × (after ≡ (output, c) ∷ before))
shift e (inl f) = inl (f ∙ e)
shift {output} e (inr (c, f)) = inr (c, f ∙ ap (λ l. (output, c) ∷ l) e)

module _ {bolt : Bolt} where
  -- The action hands nothing to an output.
  pub record IsQuiet {A : Type 0} (m : Action (World bolt) A) : Type 0 where
    pub at : (w : World bolt) → (m w).1.sent ≡ w.sent

  -- The action hands at most one content to an output, to the one named.
  pub record SendsOnce {A : Type 0} (output : String) (m : Action (World bolt) A) : Type 0 where
    pub at :
        (w : World bolt)
        → ((m w).1.sent ≡ w.sent) ⊎ ((c : Content) × ((m w).1.sent ≡ (output, c) ∷ w.sent))

  IsQuiet-SendsOnce :
      {A : Type 0} {output : String} {m : Action (World bolt) A} → IsQuiet m → SendsOnce output m
  IsQuiet-SendsOnce q = record { at = λ w. inl (q.at w) }

  resume_sent :
      {A B : Type 0} {output : String} (o : Outcome A) (k : A → Action (World bolt) B)
      (w : World bolt)
      → ((a : A) → SendsOnce output (k a))
      → ((resume o k w).1.sent ≡ w.sent)
        ⊎ ((c : Content) × ((resume o k w).1.sent ≡ (output, c) ∷ w.sent))
  resume_sent (done a) k w h = (h a).at w
  resume_sent (failed e) k w h = inl refl
  resume_sent panicked k w h = inl refl

  pub bind-SendsOnce :
      {A B : Type 0} {output : String} (m : Action (World bolt) A) (k : A → Action (World bolt) B)
      → IsQuiet m
      → ((a : A) → SendsOnce output (k a))
      → SendsOnce output (m >>= k)
  bind-SendsOnce m k q h = record { at = λ w. shift (q.at w) (resume_sent (m w).0 k (m w).1 h) }

  resume_quiet :
      {A B : Type 0} (o : Outcome A) (k : A → Action (World bolt) B) (w : World bolt)
      → ((a : A) → IsQuiet (k a))
      → (resume o k w).1.sent ≡ w.sent
  resume_quiet (done a) k w h = (h a).at w
  resume_quiet (failed e) k w h = refl
  resume_quiet panicked k w h = refl

  bind-IsQuiet :
      {A B : Type 0} (m : Action (World bolt) A) (k : A → Action (World bolt) B)
      → IsQuiet m
      → ((a : A) → IsQuiet (k a))
      → IsQuiet (m >>= k)
  bind-IsQuiet m k q h = record { at = λ w. resume_quiet (m w).0 k (m w).1 h ∙ q.at w }

  on_file-IsQuiet : {A : Type 0} (m : Action bolt.File A) → IsQuiet (on_file m)
  on_file-IsQuiet m = record { at = λ w. refl }

  pure-IsQuiet : {A : Type 0} (a : A) → IsQuiet (pure a)
  pure-IsQuiet a = record { at = λ w. refl }

  fail-IsQuiet : {A : Type 0} (e : String) → IsQuiet (fail {A = A} e)
  fail-IsQuiet e = record { at = λ w. refl }

  panic-IsQuiet : {A : Type 0} → IsQuiet (panic {A = A})
  panic-IsQuiet = record { at = λ w. refl }

log_error-done : (o : Outcome (Unit {0})) (e : Error) → log_error o ≢ failed e
log_error-done (failed e) e' h = cc
log_error-done (done u) e' h = cc
log_error-done panicked e' h = cc

module _ {bolt : Bolt} (services : Services bolt) where
  pub outcome-IsQuiet : {A : Type 0} (o : Outcome A) → IsQuiet (outcome services o)
  outcome-IsQuiet o = record { at = λ w. refl }

  stop_unless-IsQuiet : (b : Bool) → IsQuiet (stop_unless services b)
  unfolding stop_unless
  stop_unless-IsQuiet true = pure-IsQuiet tt
  stop_unless-IsQuiet false = fail-IsQuiet _

  aggregate-IsQuiet :
      (name : String) (c : Content) (n : ℤ) (b : Bool)
      → IsQuiet (aggregate_scan_and_get_queue services name c n b)
  unfolding aggregate_scan_and_get_queue
  aggregate-IsQuiet name c n b = record { at = λ w. refl }

  run_scheduler-IsQuiet : (seconds : ℤ) → IsQuiet (run_scheduler services seconds)
  unfolding run_scheduler
  run_scheduler-IsQuiet seconds = record { at = λ w. ground arith }

  pub remember-IsQuiet :
      (input : String) (decoded : Decoded) (route : InputRoute)
      → IsQuiet (remember services input decoded route)
  unfolding remember
  remember-IsQuiet input decoded route =
      let stored = λ (key : String).
        may_be_store_message bolt services.date_fmt input key
          (calculate_expired services.now route.plugins.unique_message_timeout_seconds) in
      elim (Bool-cases (is_empty route.plugins.unique_message_props)) [
        | inl e ↦ rw e (pure-IsQuiet tt)
        | inr e ↦ rw e (
            bind-IsQuiet {A = String}
              (outcome services (
                get_message_unique_id services.show (fields_of decoded)
                  route.plugins.unique_message_props))
              _ (outcome-IsQuiet _)
              λ key.
                bind-IsQuiet (on_file (stored key)) _ (on_file-IsQuiet (stored key))
                  λ b. stop_unless-IsQuiet b)
      ]

  pub with_postee-IsQuiet :
      (decoded : Decoded) (server : String) → IsQuiet (with_postee services decoded server)
  unfolding with_postee
  with_postee-IsQuiet nil_map server = panic-IsQuiet
  with_postee-IsQuiet (a_map fs) server = pure-IsQuiet _

  module _ (output : String) (inpteval : Inpteval) where
    send-SendsOnce : (c : Content) → SendsOnce output (send services output c)
    unfolding send
    send-SendsOnce c = record { at = λ w. inr (c, ground arith) }

    send_batch-SendsOnce :
        (scans : List Content) → SendsOnce output (send_batch services output inpteval scans)
    unfolding send_batch
    send_batch-SendsOnce [] = IsQuiet-SendsOnce (pure-IsQuiet tt)
    send_batch-SendsOnce (scan ∷ scans) =
        bind-SendsOnce _ _ (outcome-IsQuiet _) λ c. send-SendsOnce c

    schedule-IsQuiet : (route : InputRoute) → IsQuiet (schedule services output inpteval route)
    unfolding schedule
    schedule-IsQuiet route = elim (Bool-cases (is_scheduler_run route)) [
      | inl e ↦ rw e (pure-IsQuiet tt)
      | inr e ↦ rw e (run_scheduler-IsQuiet _)
    ]

    pub deliver-SendsOnce :
        (route : InputRoute) (c : Content)
        → SendsOnce output (deliver services output inpteval route c)
    unfolding deliver deliver_by_number deliver_by_time
    deliver-SendsOnce route c =
        elim (Bool-cases (
          ltb_ℤ (pos 0) route.plugins.aggregate_message_number
          && inpteval.is_aggregation_supported)) [
            | inl e ↦ rw e (
                bind-SendsOnce {A = List Content} _ _ (aggregate-IsQuiet _ _ _ _)
                  send_batch-SendsOnce)
            | inr e ↦
                rw e
                  (elim (Bool-cases (
                    ltb_ℤ (pos 0) route.plugins.aggregate_timeout_seconds
                    && inpteval.is_aggregation_supported)) [
                      | inl f ↦ rw f (
                          IsQuiet-SendsOnce (
                            bind-IsQuiet {A = List Content} _ _ (aggregate-IsQuiet _ _ _ _)
                              λ l. schedule-IsQuiet route))
                      | inr f ↦ rw f (send-SendsOnce c)
                    ])
          ]

    process-SendsOnce :
        (input : String) (decoded : Decoded) (route : InputRoute) (server : String)
        → SendsOnce output (process services output inpteval input decoded route server)
    unfolding process
    process-SendsOnce input decoded route server =
        bind-SendsOnce {A = String} (outcome services (application_scope_owners decoded)) _
          (outcome-IsQuiet _)
          λ owners. bind-SendsOnce _ _ (remember-IsQuiet input decoded route) λ u.
            bind-SendsOnce _ _ (with_postee-IsQuiet decoded server) λ fields.
              bind-SendsOnce {A = Content} (outcome services (inpteval.eval fields server)) _
                (outcome-IsQuiet _) λ content. deliver-SendsOnce route (with_owners owners content)

    match_then-SendsOnce :
        (r : Result Bool) (m : Action (World bolt) (Unit {0}))
        → SendsOnce output m
        → SendsOnce output (match_then services output inpteval r m)
    unfolding match_then
    match_then-SendsOnce (err e) m h = IsQuiet-SendsOnce (fail-IsQuiet e)
    match_then-SendsOnce (ok false) m h = IsQuiet-SendsOnce (fail-IsQuiet _)
    match_then-SendsOnce (ok true) m h = h

    decode_then-SendsOnce :
        (input : String) (route : InputRoute) (server : String) (r : Result Decoded)
        → SendsOnce output (decode_then services output inpteval input route server r)
    unfolding decode_then
    decode_then-SendsOnce input route server (err e) = IsQuiet-SendsOnce (fail-IsQuiet e)
    decode_then-SendsOnce input route server (ok decoded) =
        match_then-SendsOnce _ _ (process-SendsOnce input decoded route server)

    -- A message is handed to an output at most once, and to the output named, whatever the template,
    -- the database and the criteria answer; the call returns no error, since every error is logged.
    pub msg_handling-sent :
        (input server : String) (w : World bolt)
        → (((msg_handling services output inpteval input server w).1.sent ≡ w.sent)
            ⊎ ((c : Content) × ((msg_handling services output inpteval input server w).1.sent
                  ≡ (output, c) ∷ w.sent)))
          × ((e : Error) → (msg_handling services output inpteval input server w).0 ≢ failed e)
    unfolding msg_handling handle
    msg_handling-sent input server w = (
      ((decode_then-SendsOnce input w.route server (services.unmarshal input)).at w),
      log_error-done _,
    )
