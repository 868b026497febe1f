-- ===== src/System/Once.antt =====
-- The goroutines of messages with one key, and the checks of the database between their turns.
use postee.Prelude.{
  String, true, false, List, [], ◌∷◌, ◌≡◌, ◌⊎◌, ◌∙◌, inl, inr, ok, Result, Outcome, done, failed,
  panicked, refl, All, subst, resume, is_empty, map,
}
use postee.Data.{SlackBlock}
use postee.Db.Bolt.{Bolt, BoltLaws}
use postee.Db.Messages.Once.{is_known}
use postee.Db.Aggregator.{Content}
use postee.Outputs.Records.{get_name}
use postee.Rego.Eval.{Engine}
use postee.Layout.Legacy.{LegacyServices}
use postee.Msg.Value.{Decoded, fields_of}
use postee.Msg.UniqueKey.{get_message_unique_id}
use postee.Msg.World.{Services}
use postee.Msg.Handling.Single.{
  SendsKnown, unsent, HasKey, msg_handling-SendsKnown, msg_handling_known,
}
use postee.Msg.Handling.Single
use postee.Router.Dispatch.{Dispatch}
use postee.System.{
  Shared, Turn, goroutine, check, check_data, run_dispatch, run_all, run_turn, run_turns,
  inpteval_for, enter,
}

-- Nothing was handed to an output since, or one content.
abbrev pub AtMostOne : List (String × Content) → List (String × Content) → Type 0
AtMostOne before now = (now ≡ before) ⊎ ((e : String × Content) × (now ≡ e ∷ before))

module _ {engine : Engine} {bolt : Bolt} (legacy_services : LegacyServices)
    (marshal : SlackBlock → Result String) (services : Services bolt) where
  -- The goroutine's message is read, and the unique properties of its route give it the key.
  pub record Keyed (key : String) (d : Dispatch engine) : Type 0 where
    pub decoded : Decoded
    pub reads : services.unmarshal d.input ≡ ok decoded
    pub asks : is_empty d.route.plugins.unique_message_props ≡ false
    pub names :
        get_message_unique_id services.show (fields_of decoded) d.route.plugins.unique_message_props
        ≡ done key

  Keyed-HasKey :
      (key : String) (d : Dispatch engine) (s : Shared bolt)
      → Keyed key d
      → HasKey services key d.input (enter legacy_services marshal services d s)
  Keyed-HasKey key d s k = record {
    decoded = k.decoded;
    reads = k.reads;
    asks = k.asks;
    names = k.names;
  }

  module _ (laws : BoltLaws bolt) (key : String) where
    -- No check removes the key: where it is known before a check, it is known after it.
    abbrev pub Lasts : List (Turn engine) → Shared bolt → Type 0
    Lasts [] s = Unit
    Lasts (goroutine d ∷ ts) s = Lasts ts (run_dispatch legacy_services marshal services d s).1
    Lasts (check limit date_fmt now ∷ ts) s =
        let after =
          run_turn {engine = engine} legacy_services marshal services (check limit date_fmt now)
            s in
        (is_known bolt s.file key ≡ true → is_known bolt after.1.file key ≡ true) × Lasts ts after.1

    abbrev pub OfKey : Turn engine → Type 0
    OfKey (goroutine d) = Keyed key d
    OfKey (check limit date_fmt now) = Unit

    abbrev after : Outcome (Unit {0}) → List (Turn engine) → Shared bolt → List (String × Content)
    after o ts s = (resume o (λ u. run_turns legacy_services marshal services ts) s).1.sent

    after_same :
        (o : Outcome (Unit {0})) (ts : List (Turn engine)) (s : Shared bolt)
        → (run_turns legacy_services marshal services ts s).1.sent ≡ s.sent
        → after o ts s ≡ s.sent
    after_same (done u) ts s e = e
    after_same (failed x) ts s e = refl
    after_same panicked ts s e = refl

    run_turns_known :
        (ts : List (Turn engine)) (s : Shared bolt)
        → All OfKey ts
        → Lasts ts s
        → is_known bolt s.file key ≡ true
        → (run_turns legacy_services marshal services ts s).1.sent ≡ s.sent
    unfolding run_turns run_turn run_dispatch check_data
    run_turns_known [] s h l k = refl
    run_turns_known (goroutine d ∷ ts) s (p, h) l k =
        let r = run_dispatch legacy_services marshal services d s in
        let (same, still) =
          msg_handling_known laws services (get_name d.output)
            (inpteval_for legacy_services marshal services d.template) key d.input d.aqua_server
            (enter legacy_services marshal services d s) (Keyed-HasKey key d s p) k in
        after_same r.0 ts r.1 (run_turns_known ts r.1 h l still) ∙ same
    run_turns_known (check limit date_fmt now ∷ ts) s (p, h) (keeps, l) k =
        let r =
          run_turn {engine = engine} legacy_services marshal services (check limit date_fmt now)
            s in
        after_same r.0 ts r.1 (run_turns_known ts r.1 h l (keeps k))

    after_unsent :
        (o : Outcome (Unit {0})) (ts : List (Turn engine)) (s : Shared bolt)
        → AtMostOne s.sent (run_turns legacy_services marshal services ts s).1.sent
        → AtMostOne s.sent (after o ts s)
    after_unsent (done u) ts s h = h
    after_unsent (failed x) ts s h = inl refl
    after_unsent panicked ts s h = inl refl

    -- However many goroutines have a message with one key, of routes that ask for unique messages, in
    -- whatever order they take their turns, and whatever checks of the database for its size and for what
    -- has expired come between them: one content is handed to one output, or none, as long as no
    -- check removes the key.
    pub run_turns-once :
        (ts : List (Turn engine)) (s : Shared bolt)
        → All OfKey ts
        → Lasts ts s
        → AtMostOne s.sent (run_turns legacy_services marshal services ts s).1.sent
    unfolding run_turns run_turn run_dispatch check_data
    run_turns-once [] s h l = inl refl
    run_turns-once (goroutine d ∷ ts) s (p, h) l =
        let r = run_dispatch legacy_services marshal services d s in
        elim (msg_handling-SendsKnown laws services (get_name d.output)
          (inpteval_for legacy_services marshal services d.template) key d.input d.aqua_server
          (enter legacy_services marshal services d s) (Keyed-HasKey key d s p)) [
            | unsent e ↦
                subst (λ x. AtMostOne x (after r.0 ts r.1)) e
                  (after_unsent r.0 ts r.1 (run_turns-once ts r.1 h l))
            | Single.sent c e k ↦ inr (_, after_same r.0 ts r.1 (run_turns_known ts r.1 h l k) ∙ e)
          ]
    run_turns-once (check limit date_fmt now ∷ ts) s (p, h) (keeps, l) =
        let r =
          run_turn {engine = engine} legacy_services marshal services (check limit date_fmt now)
            s in
        after_unsent r.0 ts r.1 (run_turns-once ts r.1 h l)

    unfoldable goroutines : List (Dispatch engine) → List (Turn engine)
    goroutines ds = map (λ d. goroutine d) ds

    resumed :
        (ds : List (Dispatch engine)) (o : Outcome (Unit {0})) (s : Shared bolt)
        → run_turns legacy_services marshal services (goroutines ds) s
          ≡ run_all legacy_services marshal services ds s
        → resume o (λ u. run_turns legacy_services marshal services (goroutines ds)) s
          ≡ resume o (λ u. run_all legacy_services marshal services ds) s
    resumed ds (done u) s h = h
    resumed ds (failed e) s h = refl
    resumed ds panicked s h = refl

    run_turns-goroutines :
        (ds : List (Dispatch engine)) (s : Shared bolt)
        → run_turns legacy_services marshal services (goroutines ds) s
          ≡ run_all legacy_services marshal services ds s
    unfolding run_turns run_turn run_all goroutines
    run_turns-goroutines [] s = refl
    run_turns-goroutines (d ∷ ds) s =
        let r = run_dispatch legacy_services marshal services d s in
        resumed ds r.0 r.1 (run_turns-goroutines ds r.1)

    goroutines-OfKey :
        (ds : List (Dispatch engine)) → All (Keyed key) ds → All OfKey (goroutines ds)
    unfolding goroutines
    goroutines-OfKey [] h = tt
    goroutines-OfKey (d ∷ ds) (p, h) = (p, goroutines-OfKey ds h)

    goroutines-Lasts : (ds : List (Dispatch engine)) (s : Shared bolt) → Lasts (goroutines ds) s
    unfolding goroutines
    goroutines-Lasts [] s = tt
    goroutines-Lasts (d ∷ ds) s =
        goroutines-Lasts ds (run_dispatch legacy_services marshal services d s).1

    -- Without a check between them, goroutines of one key hand over one content at most.
    pub run_all-once :
        (ds : List (Dispatch engine)) (s : Shared bolt)
        → All (Keyed key) ds
        → AtMostOne s.sent (run_all legacy_services marshal services ds s).1.sent
    run_all-once ds s h =
        subst (λ (r : Outcome (Unit {0}) × Shared bolt). AtMostOne s.sent r.1.sent)
          (run_turns-goroutines ds s)
          (run_turns-once (goroutines ds) s (goroutines-OfKey ds h) (goroutines-Lasts ds s))
