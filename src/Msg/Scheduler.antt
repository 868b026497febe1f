-- ===== src/Msg/Scheduler.antt =====
-- msgservice/scheduler.go: the goroutine of a route whose messages are aggregated by time.
pub mod Flushing
pub mod Taking
use postee.Prelude.{String, List, [], ◌∷◌, done, failed, panicked, Action, pure, panic, ◌>>=◌, ◌>>◌}
use postee.Prelude.Int.{pos}
use postee.Prelude.{false}
use postee.Db.Bolt.{Bolt}
use postee.Db.Aggregator.{Content}
use postee.Msg.World.{World, Inpteval, Services}
use postee.Msg.Handling.{send, aggregate_scan_and_get_queue}

-- What the goroutine receives: the end of a period, or the close of its channel.
pub data Signal : Type 0 where
  tick stop : Signal

module _ {bolt : Bolt} (services : Services bolt) (output : String) (inpteval : Inpteval) where
  -- An error of the template is logged, and the nil map that comes with it is sent.
  flush : List Content → Action (World bolt) (Unit {0})
  flush [] = pure tt
  flush (scan ∷ scans) = elim (inpteval.build_aggregated_content (scan ∷ scans)) [
    | done aggregated ↦ send services output aggregated
    | failed e ↦ send services output []
    | panicked ↦ panic
  ]

  unfoldable pub on_tick : Action (World bolt) (Unit {0})
  unfolding flush
  on_tick w =
      (do queue ← aggregate_scan_and_get_queue services w.route.name [] (pos 0) false; flush queue)
        w

  -- The loop over the signals; after `stop` the goroutine has returned.
  unfoldable pub run : List Signal → Action (World bolt) (Unit {0})
  unfolding on_tick
  run [] = pure tt
  run (stop ∷ signals) = pure tt
  run (tick ∷ signals) = do on_tick; run signals
