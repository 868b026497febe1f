-- ===== src/System/Trace.antt =====
-- webserver, router and msgservice as one: requests, the queue, the goroutines and their turns, between
-- two reloads.
pub mod Order
pub mod Accounted
pub mod Provenance
use postee.Prelude.{
  ℕ, zero, suc, String, Option, none, some, List, [], ◌∷◌, ◌++◌, Result, ok, err, done, failed,
  panicked, Outcome, length, ltb, if◌then◌else◌,
}
use postee.Prelude.Int.{ℤ}
use postee.Data.{SlackBlock}
use postee.Db.Bolt.{Bolt}
use postee.Rego.Eval.{Engine}
use postee.Layout.Legacy.{LegacyServices}
use postee.Msg.World.{Services}
use postee.Router.State.{Router, Ended, returned, blocked, crashed}
use postee.Router.Dispatch.{Dispatch, handle_route, on_message}
use postee.Web.{Handed, nothing, queued, routed, scan_handler, tenant_handler}
use postee.System.{Shared, check_data, run_dispatch}

-- The channel of messages, the messages that `listen` took of it, the goroutines that were started, those
-- of them that are left, and what they share. The messages and the goroutines stand in their order.
pub record Node (engine : Engine) (bolt : Bolt) : Type 0 where
  pub queue : List String
  pub taken : List String
  pub started : List (Dispatch engine)
  pub pool : List (Dispatch engine)
  pub shared : Shared bolt

-- A request that posts a scan, or a message to a route; a round of `listen`; the turn of a goroutine; a
-- tick of the database's checker, with the limit of the size, the layout of the dates and the time.
pub data Event : Type 0 where
  scan : (body : Result String) → Event
  tenant : (route : Option String) (body : Result String) → Event
  listen : Event
  turn_of : (i : ℕ) → Event
  check_db : (limit : ℤ) (date_fmt : ℤ → String) (now : ℤ) → Event

-- make(chan []byte, 1000)
abbrev pub capacity : ℕ
capacity = 1000

-- The element at a place, and the others.
unfoldable pub pick : {A : Type 0} → ℕ → List A → Option (A × List A)
pick i [] = none
pick zero (x ∷ xs) = some (x, xs)
pick (suc i) (x ∷ xs) = elim (pick i xs) [ none ↦ none | some (y, ys) ↦ some (y, x ∷ ys) ]

module _ {engine : Engine} {bolt : Bolt} where
  abbrev pub start_all : List (Dispatch engine) → Node engine bolt → Node engine bolt
  start_all ds n = record n { started = n.started ++ ds; pool = n.pool ++ ds }

  -- ctx.queue <- data
  unfoldable pub send_data : String → Node engine bolt → Ended (Node engine bolt)
  send_data data_ n =
      if ltb (length n.queue) capacity
      then returned (record n { queue = n.queue ++ data_ ∷ [] })
      else blocked

  abbrev pub after_check :
      Outcome (Unit {0}) × bolt.File → Node engine bolt → Ended (Node engine bolt)
  after_check (done u, f) n = returned (record n { shared = record n.shared { file = f } })
  after_check (failed e, f) n = returned (record n { shared = record n.shared { file = f } })
  after_check (panicked, f) n = crashed

  abbrev after_turn :
      Outcome (Unit {0}) × Shared bolt
      → List (Dispatch engine)
      → Node engine bolt
      → Ended (Node engine bolt)
  after_turn (done u, s) rest n = returned (record n { pool = rest; shared = s })
  after_turn (failed e, s) rest n = returned (record n { pool = rest; shared = s })
  after_turn (panicked, s) rest n = crashed

module _ {engine : Engine} {bolt : Bolt} (ctx : Router engine) where
  abbrev receive : Handed → Node engine bolt → Ended (Node engine bolt)
  receive nothing n = returned n
  receive (queued text) n = send_data text n
  receive (routed route text) n = returned (start_all (handle_route ctx route text) n)

  abbrev listen_once : ℕ → List String → Node engine bolt → Ended (Node engine bolt)
  listen_once zero queue n = blocked
  listen_once (suc k) [] n = blocked
  listen_once (suc k) (text ∷ rest) n =
      returned
        (start_all (on_message ctx text) (record n { queue = rest; taken = n.taken ++ text ∷ [] }))

module _ {engine : Engine} {bolt : Bolt} (legacy_services : LegacyServices)
    (marshal : SlackBlock → Result String) (services : Services bolt) (ctx : Router engine) where
  abbrev take_turn :
      Option (Dispatch engine × List (Dispatch engine))
      → Node engine bolt
      → Ended (Node engine bolt)
  take_turn none n = blocked
  take_turn (some (d, rest)) n =
      after_turn (run_dispatch legacy_services marshal services d n.shared) rest n

  -- What one event does; an event that cannot happen now is blocked.
  unfoldable pub step : Event → Node engine bolt → Ended (Node engine bolt)
  unfolding send_data check_data
  step (scan body) n = receive ctx (scan_handler body).1 n
  step (tenant route body) n = receive ctx (tenant_handler route body).1 n
  step listen n = listen_once ctx ctx.listeners n.queue n
  step (turn_of i) n = take_turn (pick i n.pool) n
  step (check_db limit date_fmt now) n =
      after_check (check_data bolt limit date_fmt now n.shared.file) n

  unfoldable pub run : List Event → Node engine bolt → Ended (Node engine bolt)
  unfolding step
  run [] n = returned n
  run (e ∷ events) n = elim (step e n) [
    | returned n' ↦ run events n'
    | blocked ↦ blocked
    | crashed ↦ crashed
  ]
