-- ===== src/Msg/Scheduler/Taking.antt =====
-- How the scheduler of a route takes the queue from the database.
use postee.Prelude.{
  String, false, List, [], ◌≡◌, ◌∙◌, ap, sym, arith, ok, err, Result, Outcome, done,
}
use postee.Prelude.Int.{pos}
use postee.Db.Bolt.{Bolt, BoltLaws}
use postee.Db.Access.{bucket_aggregator}
use postee.Db.Aggregator.{Content, CodecLaws, aggregate_scans}
use postee.Db.Aggregator.Queue.{
  HasQueue, Turns, broken, refused, queued, released, aggregate_scans-Turns,
}
use postee.Db.Stats.{register_plgn_invctn}
use postee.Db.Stats.Count.{Registers, register_plgn_invctn-Registers}
use postee.Db.Stats.Count
use postee.Msg.World.{World, Services}
use postee.Msg.Handling.{queue_of, aggregate_scan_and_get_queue}

module _ {bolt : Bolt} (services : Services bolt) where
  -- The route's scans that are queued.
  abbrev pub Queued : World bolt → List Content → Type 0
  Queued w q = HasQueue bolt services.codec w.route.name w.file q

  -- How the queue is taken: it stays where the database fails, and is empty after it was taken.
  pub data Takes (w : World bolt) (q : List Content)
      : Outcome (List Content) → bolt.File → Type 0 where
    stays : (f : bolt.File) → HasQueue bolt services.codec w.route.name f q → Takes w q (done []) f
    taken : (f : bolt.File) → HasQueue bolt services.codec w.route.name f [] → Takes w q (done q) f

module _ {bolt : Bolt} (laws : BoltLaws bolt) (services : Services bolt)
    (codec_laws : CodecLaws services.codec) (output : String) where
  pub Queued-register :
      (name : String) (f : bolt.File) (q : List Content)
      → HasQueue bolt services.codec name f q
      → HasQueue bolt services.codec name (register_plgn_invctn bolt output f).1 q
  Queued-register name f q h = kept (register_plgn_invctn-Registers laws output f)
    where
      kept :
          {f' : bolt.File} {o : Outcome (Unit {0})}
          → Registers laws output f f' o
          → HasQueue bolt services.codec name f' q
      kept (Count.broken e s) = rw (s.at bucket_aggregator name) h
      kept (Count.counted w) = rw (w bucket_aggregator name) h

  same_queue :
      (name : String) (f : bolt.File) (p q : List Content)
      → HasQueue bolt services.codec name f p
      → HasQueue bolt services.codec name f q
      → p ≡ q
  same_queue name f p q h k = ap (λ r. value r p) (sym h ∙ k)
    where
      value : Result (List Content) → List Content → List Content
      value (ok l) m = l
      value (err e) m = m

  pub aggregate-Takes :
      (w : World bolt) (q : List Content)
      → Queued services w q
      → let r = aggregate_scan_and_get_queue services w.route.name [] (pos 0) false w in
        Takes services w q r.0 r.1.file
  unfolding aggregate_scan_and_get_queue
  aggregate-Takes w q h =
      by_turn (aggregate_scans-Turns laws codec_laws w.route.name [] (pos 0) false w.file)
    where
      by_turn :
          {f' : bolt.File} {o : Outcome (List Content)}
          → Turns bolt services.codec w.route.name [] (pos 0) false w.file f' o
          → Takes services w q (queue_of services o) f'
      by_turn (broken e s) = stays _ (rw (s.at bucket_aggregator w.route.name) h)
      by_turn (refused n s) = absurd (ground arith)
      by_turn (queued p k small l others) = absurd (ground (arith, small))
      by_turn (released p k large l others) =
          rw (same_queue w.route.name w.file p q k h) (taken _ l)

  pub taken_all :
      (q l : List Content) (w : World bolt)
      → Queued services w q
      → (aggregate_scans bolt services.codec w.route.name [] (pos 0) false w.file).0 ≡ done l
      → let r = aggregate_scan_and_get_queue services w.route.name [] (pos 0) false w in
        (r.0 ≡ done q) × HasQueue bolt services.codec w.route.name r.1.file []
  unfolding aggregate_scan_and_get_queue
  taken_all q l w h e =
      by_turn (aggregate_scans-Turns laws codec_laws w.route.name [] (pos 0) false w.file) e
    where
      by_turn :
          {f' : bolt.File} {o : Outcome (List Content)}
          → Turns bolt services.codec w.route.name [] (pos 0) false w.file f' o
          → o ≡ done l
          → (queue_of services o ≡ done q) × HasQueue bolt services.codec w.route.name f' []
      by_turn (broken x s) g = absurd (cc)
      by_turn (refused n s) g = absurd (cc)
      by_turn (queued p k small n others) g = absurd (ground (arith, small))
      by_turn (released p k large n others) g =
          (ap done (same_queue w.route.name w.file p q k h), n)
