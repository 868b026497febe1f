-- ===== src/System/Trace/Order.antt =====
-- The queue of messages along a run.
use mathlib.Core.List.{append-nil, append_assoc}
use postee.Prelude.{
  ℕ, zero, suc, ◌≤◌, String, Bool, true, false, Option, none, some, List, [], ◌∷◌, ◌++◌, ◌≡◌, ◌∙◌,
  ap, sym, inl, inr, refl, arith, Result, ok, err, Outcome, done, failed, panicked, length,
  length-append, ltb, ltb→lt, Bool-cases, ◌==◌,
}
use postee.Data.{SlackBlock}
use postee.Db.Bolt.{Bolt}
use postee.Rego.Eval.{Engine}
use postee.Layout.Legacy.{LegacyServices}
use postee.Msg.World.{Services}
use postee.Router.State.{Router, Ended, returned, blocked, crashed}
use postee.Router.Dispatch.{Dispatch}
use postee.Web.{scan_handler, tenant_handler}
use postee.System.{Shared}
use postee.System.Trace.{
  Node, Event, scan, tenant, listen, turn_of, check_db, capacity, pick, send_data, receive,
  listen_once, after_turn, after_check, take_turn, step, run,
}

-- The messages that the scans among the events post.
abbrev pub texts : List Event → List String
texts [] = []
texts (scan (ok text) ∷ events) = text ∷ texts events
texts (scan (err e) ∷ events) = texts events
texts (_ ∷ events) = texts events

texts-cons : (e : Event) (events : List Event) → texts (e ∷ events) ≡ texts (e ∷ []) ++ texts events
texts-cons (scan (ok text)) events = refl
texts-cons (scan (err e)) events = refl
texts-cons (tenant route body) events = refl
texts-cons listen events = refl
texts-cons (turn_of i) events = refl
texts-cons (check_db limit date_fmt now) events = refl

module _ {engine : Engine} {bolt : Bolt} where
  -- What was taken and what waits is what was before, and the posted text; the queue keeps its bound.
  pub record Moves (n n' : Node engine bolt) (posted : List String) : Type 0 where
    pub order : n'.taken ++ n'.queue ≡ (n.taken ++ n.queue) ++ posted
    pub bound : length n.queue ≤ capacity → length n'.queue ≤ capacity

  abbrev pub left : Ended (Node engine bolt) → Node engine bolt → Node engine bolt
  left (returned n) m = n
  left blocked m = m
  left crashed m = m

  same_queue-Moves :
      (n n' : Node engine bolt) → n'.taken ≡ n.taken → n'.queue ≡ n.queue → Moves n n' []
  same_queue-Moves n n' t q = record { order = rw (t, q) (sym (append-nil _)); bound = λ h. rw q h }

module _ {engine : Engine} {bolt : Bolt} (legacy_services : LegacyServices)
    (marshal : SlackBlock → Result String) (services : Services bolt) (ctx : Router engine) where
  send_data-Moves :
      (text : String) (n n' : Node engine bolt)
      → send_data text n ≡ returned n'
      → Moves n n' (text ∷ [])
  unfolding send_data
  send_data-Moves text n n' h = elim (Bool-cases (ltb (length n.queue) capacity)) [
    | inr full ↦ let clash = rw full at h in absurd (cc)
    | inl room ↦
        let same = ap (λ r. left r n) (rw room at h) in
        record {
          order = rw (← same) (sym (append_assoc n.taken n.queue (text ∷ [])));
          bound = λ b. rw (← same) (
              ground
                (arith, length-append n.queue (text ∷ []), ltb→lt (length n.queue) capacity room));
        }
  ]

  returned-Moves :
      (m n n' : Node engine bolt)
      → m.taken ≡ n.taken
      → m.queue ≡ n.queue
      → ◌≡◌ {A = Ended (Node engine bolt)} (returned m) (returned n')
      → Moves n n' []
  returned-Moves m n n' t q h =
      let same = ap (λ r. left r n) h in same_queue-Moves n n' (rw same at t) (rw same at q)

  listen-Moves :
      (k : ℕ) (queue : List String) (n n' : Node engine bolt)
      → n.queue ≡ queue
      → listen_once ctx k queue n ≡ returned n'
      → Moves n n' []
  listen-Moves zero queue n n' q h = absurd (cc)
  listen-Moves (suc k) [] n n' q h = absurd (cc)
  listen-Moves (suc k) (text ∷ rest) n n' q h =
      let same = ap (λ r. left r n) h in
      record {
        order =
            rw (← same, q)
              (append_assoc n.taken (text ∷ []) rest ∙ sym (append-nil (n.taken ++ text ∷ rest)));
        bound = λ b. rw (← same) (ground (arith, rw q at b));
      }

  turn-Moves :
      (r : Outcome (Unit {0}) × Shared bolt) (rest : List (Dispatch engine))
      (n n' : Node engine bolt)
      → after_turn r rest n ≡ returned n'
      → Moves n n' []
  turn-Moves (done u, s) rest n n' h = returned-Moves _ n n' refl refl h
  turn-Moves (failed e, s) rest n n' h = returned-Moves _ n n' refl refl h
  turn-Moves (panicked, s) rest n n' h = absurd (cc)

  take_turn-Moves :
      (o : Option (Dispatch engine × List (Dispatch engine))) (n n' : Node engine bolt)
      → take_turn legacy_services marshal services ctx o n ≡ returned n'
      → Moves n n' []
  take_turn-Moves none n n' h = absurd (cc)
  take_turn-Moves (some (d, rest)) n n' h = turn-Moves _ rest n n' h

  check-Moves :
      (r : Outcome (Unit {0}) × bolt.File) (n n' : Node engine bolt)
      → after_check r n ≡ returned n'
      → Moves n n' []
  check-Moves (done u, f) n n' h = returned-Moves _ n n' refl refl h
  check-Moves (failed e, f) n n' h = returned-Moves _ n n' refl refl h
  check-Moves (panicked, f) n n' h = absurd (cc)

  tenant-Moves :
      (b : Bool) (route : String) (body : Result String) (n n' : Node engine bolt)
      → (route == "") ≡ b
      → receive ctx (tenant_handler (some route) body).1 n ≡ returned n'
      → Moves n n' []
  unfolding tenant_handler
  tenant-Moves true route (ok text) n n' e h =
      returned-Moves _ n n' refl refl (rw (e, tenant_handler) at h)
  tenant-Moves false route (ok text) n n' e h =
      returned-Moves _ n n' refl refl (rw (e, tenant_handler) at h)
  tenant-Moves true route (err x) n n' e h =
      returned-Moves _ n n' refl refl (rw (e, tenant_handler) at h)
  tenant-Moves false route (err x) n n' e h =
      returned-Moves _ n n' refl refl (rw (e, tenant_handler) at h)

  step-Moves :
      (e : Event) (n n' : Node engine bolt)
      → step legacy_services marshal services ctx e n ≡ returned n'
      → Moves n n' (texts (e ∷ []))
  unfolding step scan_handler tenant_handler
  step-Moves (scan (ok text)) n n' h = send_data-Moves text n n' h
  step-Moves (scan (err e)) n n' h = returned-Moves n n n' refl refl h
  step-Moves (tenant none body) n n' h = returned-Moves n n n' refl refl h
  step-Moves (tenant (some route) body) n n' h = tenant-Moves (route == "") route body n n' refl h
  step-Moves listen n n' h = listen-Moves ctx.listeners n.queue n n' refl h
  step-Moves (turn_of i) n n' h = take_turn-Moves (pick i n.pool) n n' h
  step-Moves (check_db limit date_fmt now) n n' h = check-Moves _ n n' h

  pub run_first :
      (e : Event) (events : List Event) (n n' : Node engine bolt)
      → run legacy_services marshal services ctx (e ∷ events) n ≡ returned n'
      → (m : Node engine bolt) × (step legacy_services marshal services ctx e n ≡ returned m)
        × (run legacy_services marshal services ctx events m ≡ returned n')
  unfolding run
  run_first e events n n' h = by_first (step legacy_services marshal services ctx e n) refl h
    where
      by_first :
          (r : Ended (Node engine bolt))
          → step legacy_services marshal services ctx e n ≡ r
          → (elim r [
            | returned m ↦ run legacy_services marshal services ctx events m
            | blocked ↦ blocked
            | crashed ↦ crashed
          ])
            ≡ returned n'
          → (m : Node engine bolt) × (step legacy_services marshal services ctx e n ≡ returned m)
            × (run legacy_services marshal services ctx events m ≡ returned n')
      by_first (returned m) s k = (m, s, k)
      by_first blocked s k = absurd (cc)
      by_first crashed s k = absurd (cc)

  Moves-trans :
      (n m n' : Node engine bolt) (xs ys : List String)
      → Moves n m xs
      → Moves m n' ys
      → Moves n n' (xs ++ ys)
  Moves-trans n m n' xs ys a b = record {
    order = b.order ∙ ap (λ l. l ++ ys) a.order ∙ append_assoc (n.taken ++ n.queue) xs ys;
    bound = λ h. b.bound (a.bound h);
  }

  -- Along every run, what `listen` has taken, with what waits in the queue, is what was there before
  -- and then the posted messages, each once and in the order in which they came; and the queue keeps
  -- within its capacity.
  pub run-Moves :
      (events : List Event) (n n' : Node engine bolt)
      → run legacy_services marshal services ctx events n ≡ returned n'
      → Moves n n' (texts events)
  unfolding run
  run-Moves [] n n' h = returned-Moves n n n' refl refl h
  run-Moves (e ∷ events) n n' h =
      let (m, s, r) = run_first e events n n' h in
      rw (texts-cons e events)
        (Moves-trans n m n' _ _ (step-Moves e n m s) (run-Moves events m n' r))
