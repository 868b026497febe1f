-- ===== src/Msg/Handling/Keys.antt =====
-- The keys of stored messages over the delivery of a message.
use postee.Prelude.{
  String, Bool, List, [], ◌∷◌, ◌≡◌, ◌&&◌, ◌∙◌, refl, arith, inl, inr, Outcome, done, failed,
  panicked, Action, pure, resume, ◌>>=◌, Bool-cases,
}
use postee.Prelude.Int.{ℤ, pos, ltb_ℤ}
use postee.Routes.{InputRoute, is_scheduler_run}
use postee.Db.Bolt.{Bolt, BoltLaws}
use postee.Db.Access.{bucket_name}
use postee.Db.Aggregator.{Content}
use postee.Db.Aggregator.Frame.{aggregate_scans_frame}
use postee.Db.Stats.{register_plgn_invctn}
use postee.Db.Stats.Count.{Registers, broken, counted, register_plgn_invctn-Registers}
use postee.Msg.World.{World, Inpteval, Services}
use postee.Msg.Handling.{
  outcome, send, aggregate_scan_and_get_queue, run_scheduler, send_batch, schedule, deliver,
  deliver_by_number, deliver_by_time,
}

module _ {bolt : Bolt} where
  -- The action keeps the messages that are stored, with their keys.
  pub record KeepsKeys {A : Type 0} (m : Action (World bolt) A) : Type 0 where
    pub at :
        (w : World bolt) (key : String)
        → bolt.get (m w).1.file bucket_name key ≡ bolt.get w.file bucket_name key

  resume_keys :
      {A B : Type 0} (o : Outcome A) (k : A → Action (World bolt) B) (w : World bolt) (key : String)
      → ((a : A) → KeepsKeys (k a))
      → bolt.get (resume o k w).1.file bucket_name key ≡ bolt.get w.file bucket_name key
  resume_keys (done a) k w key h = (h a).at w key
  resume_keys (failed e) k w key h = refl
  resume_keys panicked k w key h = refl

  pub bind-KeepsKeys :
      {A B : Type 0} (m : Action (World bolt) A) (k : A → Action (World bolt) B)
      → KeepsKeys m
      → ((a : A) → KeepsKeys (k a))
      → KeepsKeys (m >>= k)
  bind-KeepsKeys m k q h = record { at = λ w key. resume_keys (m w).0 k (m w).1 key h ∙ q.at w key }

  pub pure-KeepsKeys : {A : Type 0} (a : A) → KeepsKeys (pure a)
  pure-KeepsKeys a = record { at = λ w key. refl }

module _ {bolt : Bolt} (laws : BoltLaws bolt) where
  register_keys :
      (name key : String) (f : bolt.File)
      → bolt.get (register_plgn_invctn bolt name f).1 bucket_name key ≡ bolt.get f bucket_name key
  register_keys name key f = kept (register_plgn_invctn-Registers laws name f)
    where
      kept :
          {f' : bolt.File} {o : Outcome (Unit {0})}
          → Registers laws name f f' o
          → bolt.get f' bucket_name key ≡ bolt.get f bucket_name key
      kept (broken e s) = s.at bucket_name key
      kept (counted w) = w bucket_name key

  module _ (services : Services bolt) where
    pub outcome-KeepsKeys : {A : Type 0} (o : Outcome A) → KeepsKeys (outcome services o)
    outcome-KeepsKeys o = record { at = λ w key. refl }

    aggregate-KeepsKeys :
        (name : String) (c : Content) (n : ℤ) (b : Bool)
        → KeepsKeys (aggregate_scan_and_get_queue services name c n b)
    unfolding aggregate_scan_and_get_queue
    aggregate-KeepsKeys name c n b = record {
      at =
          λ w key. aggregate_scans_frame laws services.codec w.file bucket_name key refl name c n b;
    }

    run_scheduler-KeepsKeys : (seconds : ℤ) → KeepsKeys (run_scheduler services seconds)
    unfolding run_scheduler
    run_scheduler-KeepsKeys seconds = record { at = λ w key. ground arith }

    module _ (output : String) (inpteval : Inpteval) where
      send-KeepsKeys : (c : Content) → KeepsKeys (send services output c)
      unfolding send
      send-KeepsKeys c = record { at = λ w key. register_keys output key w.file }

      send_batch-KeepsKeys :
          (scans : List Content) → KeepsKeys (send_batch services output inpteval scans)
      unfolding send_batch
      send_batch-KeepsKeys [] = pure-KeepsKeys tt
      send_batch-KeepsKeys (scan ∷ scans) =
          bind-KeepsKeys _ _ (outcome-KeepsKeys _) λ c. send-KeepsKeys c

      schedule-KeepsKeys :
          (route : InputRoute) → KeepsKeys (schedule services output inpteval route)
      unfolding schedule
      schedule-KeepsKeys route = elim (Bool-cases (is_scheduler_run route)) [
        | inl e ↦ rw e (pure-KeepsKeys tt)
        | inr e ↦ rw e (run_scheduler-KeepsKeys _)
      ]

      pub deliver-KeepsKeys :
          (route : InputRoute) (c : Content) → KeepsKeys (deliver services output inpteval route c)
      unfolding deliver deliver_by_number deliver_by_time
      deliver-KeepsKeys route c =
          elim (Bool-cases (
            ltb_ℤ (pos 0) route.plugins.aggregate_message_number
            && inpteval.is_aggregation_supported)) [
              | inl e ↦ rw e (
                  bind-KeepsKeys {A = List Content} _ _ (aggregate-KeepsKeys _ _ _ _)
                    send_batch-KeepsKeys)
              | inr e ↦
                  rw e
                    (elim (Bool-cases (
                      ltb_ℤ (pos 0) route.plugins.aggregate_timeout_seconds
                      && inpteval.is_aggregation_supported)) [
                        | inl f ↦ rw f (
                            bind-KeepsKeys {A = List Content} _ _ (aggregate-KeepsKeys _ _ _ _)
                              λ l. schedule-KeepsKeys route)
                        | inr f ↦ rw f (send-KeepsKeys c)
                      ])
            ]
