-- ===== src/System/Trace/Provenance.antt =====
-- Where the contents that were handed over come from, along a run.

use postee.Prelude.{
  ℕ, zero, suc, String, Bool, true, false, Option, none, some, List, [], ◌∷◌, ◌++◌, ◌≡◌, ◌⊎◌, ap,
  subst, inl, inr, refl, Result, ok, err, Outcome, done, failed, panicked, length, ltb, Bool-cases,
  ◌==◌, All, Any,
}
use postee.Data.{SlackBlock}
use postee.Db.Bolt.{Bolt}
use postee.Db.Aggregator.{Content}
use postee.Outputs.Records.{get_name}
use postee.Rego.Eval.{Engine}
use postee.Layout.Legacy.{LegacyServices}
use postee.Msg.World.{Services}
use postee.Msg.Handling.Sending.{msg_handling-sent}
use postee.Router.State.{Router, Ended, returned}
use postee.Router.Dispatch.{Dispatch, handle_route, on_message}
use postee.Web.{scan_handler, tenant_handler}
use postee.System.{Shared, run_dispatch, inpteval_for, enter}
use postee.System.Delivered.{handle_route-From, on_message-From}
use postee.System.Trace.{
  Node, Event, scan, tenant, listen, turn_of, check_db, capacity, pick, start_all, send_data,
  receive, listen_once, after_turn, after_check, take_turn, step, run,
}
use postee.System.Trace.Accounted.{Accounted, pick-All, Accounted-start_all, Accounted-turn}
use postee.System.Trace.Order.{left, run_first}

module _ {engine : Engine} {bolt : Bolt} (legacy_services : LegacyServices)
    (marshal : SlackBlock → Result String) (services : Services bolt) (ctx : Router engine) where
  Accounted-same :
      (m n n' : Node engine bolt)
      → ◌≡◌ {A = Ended (Node engine bolt)} (returned m) (returned n')
      → Accounted ctx m
      → Accounted ctx n'
  Accounted-same m n n' h a = subst (Accounted ctx) (ap (λ r. left r n) h) a

  Accounted-send_data :
      (text : String) (n n' : Node engine bolt)
      → send_data text n ≡ returned n'
      → Accounted ctx n
      → Accounted ctx n'
  unfolding send_data
  Accounted-send_data text n n' h a = elim (Bool-cases (ltb (length n.queue) capacity)) [
    | inr full ↦ let clash = rw full at h in absurd (cc)
    | inl room ↦
        Accounted-same (record n { queue = n.queue ++ text ∷ [] }) n n' (rw room at h)
          (record { routed = a.routed; sent = a.sent; pooled = a.pooled; count = a.count })
  ]

  Accounted-listen :
      (k : ℕ) (queue : List String) (n n' : Node engine bolt)
      → listen_once ctx k queue n ≡ returned n'
      → Accounted ctx n
      → Accounted ctx n'
  Accounted-listen zero queue n n' h a = absurd (cc)
  Accounted-listen (suc k) [] n n' h a = absurd (cc)
  Accounted-listen (suc k) (text ∷ rest) n n' h a =
      let m = record n { queue = rest; taken = n.taken ++ text ∷ [] } in
      Accounted-same (start_all (on_message ctx text) m) n n' h (
        Accounted-start_all ctx _ (on_message ctx text) m (on_message-From ctx text)
          (record { routed = a.routed; sent = a.sent; pooled = a.pooled; count = a.count }))

  Accounted-tenant :
      (b : Bool) (route : String) (body : Result String) (n n' : Node engine bolt)
      → (route == "") ≡ b
      → receive ctx (tenant_handler (some route) body).1 n ≡ returned n'
      → Accounted ctx n
      → Accounted ctx n'
  unfolding tenant_handler
  Accounted-tenant true route (ok text) n n' e h a =
      Accounted-same n n n' (rw (e, tenant_handler) at h) a
  Accounted-tenant false route (ok text) n n' e h a =
      Accounted-same _ n n' (rw (e, tenant_handler) at h) (
        Accounted-start_all ctx text (handle_route ctx route text) n
          (handle_route-From ctx route text) a)
  Accounted-tenant true route (err x) n n' e h a =
      Accounted-same n n n' (rw (e, tenant_handler) at h) a
  Accounted-tenant false route (err x) n n' e h a =
      Accounted-same n n n' (rw (e, tenant_handler) at h) a

  Accounted-after_turn :
      (d : Dispatch engine) (rest : List (Dispatch engine)) (r : Outcome (Unit {0}) × Shared bolt)
      (n n' : Node engine bolt)
      → length n.pool ≡ suc (length rest)
      → Any (λ x. get_name x.output ≡ get_name d.output) n.started
      → All
          (λ (d : Dispatch engine). Any (λ x. get_name x.output ≡ get_name d.output) n.started)
          rest
      → (r.1.sent ≡ n.shared.sent)
        ⊎ ((c : Content) × (r.1.sent ≡ (get_name d.output, c) ∷ n.shared.sent))
      → after_turn r rest n ≡ returned n'
      → Accounted ctx n
      → Accounted ctx n'
  Accounted-after_turn d rest (done u, s) n n' l i o e h a =
      Accounted-same _ n n' h (Accounted-turn ctx d rest n _ refl refl l i o e a)
  Accounted-after_turn d rest (failed x, s) n n' l i o e h a =
      Accounted-same _ n n' h (Accounted-turn ctx d rest n _ refl refl l i o e a)
  Accounted-after_turn d rest (panicked, s) n n' l i o e h a = absurd (cc)

  Accounted-take_turn :
      (i : ℕ) (o : Option (Dispatch engine × List (Dispatch engine))) (n n' : Node engine bolt)
      → pick i n.pool ≡ o
      → take_turn legacy_services marshal services ctx o n ≡ returned n'
      → Accounted ctx n
      → Accounted ctx n'
  unfolding run_dispatch
  Accounted-take_turn i none n n' e h a = absurd (cc)
  Accounted-take_turn i (some (d, rest)) n n' e h a =
      let (own, others, l) = pick-All _ i n.pool d rest e a.pooled in
      Accounted-after_turn d rest (run_dispatch legacy_services marshal services d n.shared) n n' l
        own others
        (msg_handling-sent services (get_name d.output)
          (inpteval_for legacy_services marshal services d.template) d.input d.aqua_server
          (enter legacy_services marshal services d n.shared)).0
        h a

  Accounted-check :
      (r : Outcome (Unit {0}) × bolt.File) (n n' : Node engine bolt)
      → after_check r n ≡ returned n'
      → Accounted ctx n
      → Accounted ctx n'
  Accounted-check (done u, f) n n' h a =
      Accounted-same _ n n' h
        (record { routed = a.routed; sent = a.sent; pooled = a.pooled; count = a.count })
  Accounted-check (failed e, f) n n' h a =
      Accounted-same _ n n' h
        (record { routed = a.routed; sent = a.sent; pooled = a.pooled; count = a.count })
  Accounted-check (panicked, f) n n' h a = absurd (cc)

  Accounted-step :
      (e : Event) (n n' : Node engine bolt)
      → step legacy_services marshal services ctx e n ≡ returned n'
      → Accounted ctx n
      → Accounted ctx n'
  unfolding step scan_handler tenant_handler
  Accounted-step (scan (ok text)) n n' h a = Accounted-send_data text n n' h a
  Accounted-step (scan (err e)) n n' h a = Accounted-same n n n' h a
  Accounted-step (tenant none body) n n' h a = Accounted-same n n n' h a
  Accounted-step (tenant (some route) body) n n' h a =
      Accounted-tenant (route == "") route body n n' refl h a
  Accounted-step listen n n' h a = Accounted-listen ctx.listeners n.queue n n' h a
  Accounted-step (turn_of i) n n' h a = Accounted-take_turn i (pick i n.pool) n n' refl h a
  Accounted-step (check_db limit date_fmt now) n n' h a = Accounted-check _ n n' h a

  -- Along every run from a state that is accounted for: each content that was handed over is for the
  -- output of a goroutine that was started; each such goroutine carries a message to an output that the
  -- router has and a route of it names; and there are no more contents than goroutines that had a turn.
  pub run-Accounted :
      (events : List Event) (n n' : Node engine bolt)
      → run legacy_services marshal services ctx events n ≡ returned n'
      → Accounted ctx n
      → Accounted ctx n'
  unfolding run
  run-Accounted [] n n' h a = Accounted-same n n n' h a
  run-Accounted (e ∷ events) n n' h a =
      let (m, s, r) = run_first legacy_services marshal services ctx e events n n' h in
      run-Accounted events m n' r (Accounted-step e n m s a)
