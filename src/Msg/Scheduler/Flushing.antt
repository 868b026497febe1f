-- ===== src/Msg/Scheduler/Flushing.antt =====
-- What the scheduler of a route makes of the scans that are queued.
use postee.Prelude.{
  String, false, List, [], ◌∷◌, ◌≡◌, ◌⊎◌, ◌∙◌, ap, subst, inl, inr, refl, Outcome, done, failed,
  panicked, resume,
}
use postee.Prelude.Int.{pos}
use postee.Db.Bolt.{Bolt, BoltLaws}
use postee.Db.Aggregator.{Content, CodecLaws, aggregate_scans}
use postee.Db.Aggregator.Queue.{HasQueue}
use postee.Msg.World.{World, Inpteval, Services}
use postee.Msg.Handling.{send, aggregate_scan_and_get_queue}
use postee.Routes.{InputRoute}
use postee.Msg.Scheduler.Taking.{
  Queued, Queued-register, Takes, stays, taken, aggregate-Takes, taken_all,
}
use postee.Msg.Scheduler.{Signal, tick, stop, flush, on_tick, run}

module _ {bolt : Bolt} (laws : BoltLaws bolt) (services : Services bolt)
    (codec_laws : CodecLaws services.codec) (output : String) (inpteval : Inpteval) where
  -- The queue is as it was and nothing was sent, or the content was handed over and the queue is empty.
  abbrev pub Flushed : (name : String) (q : List Content) (c : Content) (w w' : World bolt) → Type 0
  Flushed name q c w w' =
      ((w'.sent ≡ w.sent) × HasQueue bolt services.codec name w'.file q)
      ⊎ ((w'.sent ≡ (output, c) ∷ w.sent) × HasQueue bolt services.codec name w'.file [])

  flush_lem :
      (q : List Content) (c : Content) (w : World bolt) (o : Outcome (List Content)) (f : bolt.File)
      → inpteval.build_aggregated_content q ≡ done c
      → Takes services w q o f
      → let r = resume o (flush services output inpteval) (record w { file = f }) in
        Flushed w.route.name q c w r.1 × (r.1.route ≡ w.route)
  unfolding flush send
  flush_lem q c w _ _ b (stays f h) = (inl (refl, h), refl)
  flush_lem [] c w _ _ b (taken f h) = (inl (refl, h), refl)
  flush_lem (scan ∷ scans) c w _ _ e (taken f h) =
      rw (e, flush)
        (inr (refl, Queued-register laws services codec_laws output w.route.name f [] h), refl)

  on_tick_lem :
      (q : List Content) (c : Content) (w : World bolt)
      → inpteval.build_aggregated_content q ≡ done c
      → Queued services w q
      → let r = on_tick services output inpteval w in
        Flushed w.route.name q c w r.1 × (r.1.route ≡ w.route)
  unfolding on_tick aggregate_scan_and_get_queue
  on_tick_lem q c w b h =
      flush_lem q c w _ _ b (aggregate-Takes laws services codec_laws output w q h)

  -- The queue is empty still, and nothing was sent.
  abbrev Idle : World bolt → World bolt → Type 0
  Idle w w' =
      (w'.sent ≡ w.sent)
      × HasQueue bolt services.codec w.route.name w'.file []
      × (w'.route ≡ w.route)

  flush-Idle :
      (w : World bolt) (o : Outcome (List Content)) (f : bolt.File)
      → Takes services w [] o f
      → Idle w (resume o (flush services output inpteval) (record w { file = f })).1
  unfolding flush
  flush-Idle w _ _ (stays f h) = (refl, h, refl)
  flush-Idle w _ _ (taken f h) = (refl, h, refl)

  on_tick-Idle :
      (w : World bolt) → Queued services w [] → Idle w (on_tick services output inpteval w).1
  unfolding on_tick aggregate_scan_and_get_queue
  on_tick-Idle w h = flush-Idle w _ _ (aggregate-Takes laws services codec_laws output w [] h)

  -- What follows a tick, if the goroutine goes on.
  abbrev rest_of : Outcome (Unit {0}) → List Signal → World bolt → World bolt
  rest_of o signals w = (resume o (λ u. run services output inpteval signals) w).1

  rest-Idle :
      (o : Outcome (Unit {0})) (signals : List Signal) (w w1 : World bolt)
      → Idle w w1
      → Idle w1 (run services output inpteval signals w1).1
      → Idle w (rest_of o signals w1)
  rest-Idle (done u) signals w w1 (s, h, r) (t, k, v) = (t ∙ s, rw (← r) k, v ∙ r)
  rest-Idle (failed e) signals w w1 i j = i
  rest-Idle panicked signals w w1 i j = i

  run-Idle :
      (signals : List Signal) (w : World bolt)
      → Queued services w []
      → Idle w (run services output inpteval signals w).1
  unfolding run
  run-Idle [] w h = (refl, h, refl)
  run-Idle (stop ∷ signals) w h = (refl, h, refl)
  run-Idle (tick ∷ signals) w h =
      let r = on_tick services output inpteval w in
      let i = on_tick-Idle w h in rest-Idle r.0 signals w r.1 i (run-Idle signals r.1 (rw i.2 i.1))

  rest-Flushed :
      (q : List Content) (c : Content) (o : Outcome (Unit {0})) (signals : List Signal)
      (w w1 : World bolt)
      → Flushed w.route.name q c w w1 × (w1.route ≡ w.route)
      → (Queued services w1 q
          → Flushed w1.route.name q c w1 (run services output inpteval signals w1).1)
      → Flushed w.route.name q c w (rest_of o signals w1)
  rest-Flushed q c (failed e) signals w w1 (f, r) next = f
  rest-Flushed q c panicked signals w w1 (f, r) next = f
  rest-Flushed q c (done u) signals w w1 (inl (s, h), r) next = elim (next (rw r h)) [
    | inl (t, k) ↦ inl (t ∙ s, rw (← r) k)
    | inr (t, k) ↦ inr (t ∙ ap (λ l. (output, c) ∷ l) s, rw (← r) k)
  ]
  rest-Flushed q c (done u) signals w w1 (inr (s, h), r) next =
      let (t, k, v) = run-Idle signals w1 (rw r h) in inr (t ∙ s, rw (← r) k)

  -- Whatever signals come and whichever calls of the database fail, the scans that are queued stay queued
  -- and nothing is sent, or the batch of all of them was sent, once, and the queue is empty; where the
  -- template makes a content of the batch, and no message comes in between.
  pub run-Flushed :
      (signals : List Signal) (q : List Content) (c : Content) (w : World bolt)
      → inpteval.build_aggregated_content q ≡ done c
      → Queued services w q
      → Flushed w.route.name q c w (run services output inpteval signals w).1
  unfolding run
  run-Flushed [] q c w b h = inl (refl, h)
  run-Flushed (stop ∷ signals) q c w b h = inl (refl, h)
  run-Flushed (tick ∷ signals) q c w b h =
      let r = on_tick services output inpteval w in
      rest-Flushed q c r.0 signals w r.1 (on_tick_lem q c w b h) (run-Flushed signals q c r.1 b)

  flush_all :
      (scan : Content) (scans : List Content) (c : Content) (w : World bolt)
      (r : Outcome (List Content) × World bolt)
      → inpteval.build_aggregated_content (scan ∷ scans) ≡ done c
      → r.0 ≡ done (scan ∷ scans)
      → resume r.0 (flush services output inpteval) r.1 ≡ send services output c r.1
  unfolding flush
  flush_all scan scans c w r b e = rw e (rw (b, flush) refl)

  on_tick_all :
      (scan : Content) (scans l : List Content) (c : Content) (w : World bolt)
      → inpteval.build_aggregated_content (scan ∷ scans) ≡ done c
      → Queued services w (scan ∷ scans)
      → (aggregate_scans bolt services.codec w.route.name [] (pos 0) false w.file).0 ≡ done l
      → let w1 = (on_tick services output inpteval w).1 in
        (w1.sent ≡ (output, c) ∷ w.sent) × Queued services w1 [] × (w1.route ≡ w.route)
  unfolding on_tick aggregate_scan_and_get_queue send
  on_tick_all scan scans l c w b h e =
      let (t, k) = taken_all laws services codec_laws output (scan ∷ scans) l w h e in
      rw
        (flush_all scan scans c w
          (aggregate_scan_and_get_queue services w.route.name [] (pos 0) false w) b t)
        (refl, Queued-register laws services codec_laws output w.route.name _ [] k, refl)

  -- A tick hands over the batch of all the scans that are queued, whatever signals come after it, and
  -- the queue is empty then; where some are queued, the database can be used at the tick, and the template
  -- makes a content of the batch.
  pub run-sent :
      (signals : List Signal) (scan : Content) (scans l : List Content) (c : Content)
      (w : World bolt)
      → inpteval.build_aggregated_content (scan ∷ scans) ≡ done c
      → Queued services w (scan ∷ scans)
      → (aggregate_scans bolt services.codec w.route.name [] (pos 0) false w.file).0 ≡ done l
      → ((run services output inpteval (tick ∷ signals) w).1.sent ≡ (output, c) ∷ w.sent)
        × HasQueue bolt services.codec w.route.name
            (run services output inpteval (tick ∷ signals) w).1.file
            []
  unfolding run
  run-sent signals scan scans l c w b h e =
      let r = on_tick services output inpteval w in
      let (s, k, v) = on_tick_all scan scans l c w b h e in
      let (t, m, u) = rest-Idle r.0 signals r.1 r.1 (refl, k, refl) (run-Idle signals r.1 k) in
      (
        t ∙ s,
        subst
            (λ (x : InputRoute).
              HasQueue bolt services.codec x.name (rest_of r.0 signals r.1).file [])
            v m,
      )
