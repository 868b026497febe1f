-- ===== src/System.antt =====
-- router and msgservice together: the goroutines that a message starts, over what they share.
pub mod Delivered
pub mod Once
pub mod Unique
pub mod Trace
pub mod Saved
mod Tests
use postee.Prelude.{
  String, Option, none, some, List, [], ◌∷◌, ◌++◌, Result, Outcome, Action, pure, Dict, lookup,
  insert, ◌>>=◌, ◌>>◌,
}
use postee.Prelude.Int.{ℤ}
use postee.Data.{SlackBlock}
use postee.Routes.{InputRoute, Scheduling}
use postee.Db.Bolt.{Bolt}
use postee.Db.Expiry.{check_size_limit, check_expired_data}
use postee.Db.Aggregator.{Content}
use postee.Outputs.Records.{get_name}
use postee.Rego.Eval.{Engine}
use postee.Rego.Build.{Evaluator, legacy, rego}
use postee.Rego.Service.{inpteval_of}
use postee.Layout.Legacy.{LegacyServices, legacy_inpteval}
use postee.Layout.Legacy.Total.{provider_of}
use postee.Msg.World.{World, Inpteval, Services}
use postee.Msg.Handling.{msg_handling}
use postee.Router.Dispatch.{Dispatch}

-- The database, the schedulers' channels of the routes by name, which is all that changes of a route,
-- and the contents that were handed to outputs, the last one first.
pub record Shared (bolt : Bolt) : Type 0 where
  pub file : bolt.File
  pub scheduling : Dict Scheduling
  pub sent : List (String × Content)

-- The order in which the goroutines of a pool take their turns: each time any of those that are left.
pub data Schedule {A : Type 0} : List A → List A → Type 0 where
  idle : Schedule [] []
  turn :
      (xs ys : List A) {a : A} {rest : List A}
      → Schedule (xs ++ ys) rest
      → Schedule (xs ++ a ∷ ys) (a ∷ rest)

abbrev scheduling_or : Scheduling → Option Scheduling → Scheduling
scheduling_or old none = old
scheduling_or old (some s) = s

-- A tick of the goroutine that load starts: the data that are too large or have expired are dropped.
unfoldable pub check_data :
    (bolt : Bolt) (limit : ℤ) (date_fmt : ℤ → String) (now : ℤ) → Action bolt.File (Unit {0})
check_data bolt limit date_fmt now = do
  check_size_limit bolt limit
  check_expired_data bolt date_fmt now

abbrev with_file :
    {bolt : Bolt} → Outcome (Unit {0}) × bolt.File → Shared bolt → Outcome (Unit {0}) × Shared bolt
with_file (o, f) s = (o, record s { file = f })

-- The turn of a goroutine of a message, or a tick of the checker.
pub data Turn (engine : Engine) : Type 0 where
  goroutine : Dispatch engine → Turn engine
  check : (limit : ℤ) (date_fmt : ℤ → String) (now : ℤ) → Turn engine

module _ {engine : Engine} {bolt : Bolt} (legacy_services : LegacyServices)
    (marshal : SlackBlock → Result String) (services : Services bolt) where
  abbrev pub inpteval_for : Evaluator engine → Inpteval
  inpteval_for (legacy layout) = legacy_inpteval legacy_services (provider_of marshal layout)
  inpteval_for (rego e) = inpteval_of e

  -- What a goroutine sees when its turn comes: the route's object is shared.
  abbrev pub enter : Dispatch engine → Shared bolt → World bolt
  enter d s = record {
    file = s.file;
    route = record d.route {
      scheduling = scheduling_or d.route.scheduling (lookup d.route.name s.scheduling);
    };
    sent = s.sent;
  }

  abbrev leave : Dispatch engine → Shared bolt → World bolt → Shared bolt
  leave d s w = record {
    file = w.file;
    scheduling = insert d.route.name w.route.scheduling s.scheduling;
    sent = w.sent;
  }

  abbrev pub handled : Dispatch engine → Shared bolt → Outcome (Unit {0}) × World bolt
  handled d s =
      msg_handling services (get_name d.output) (inpteval_for d.template) d.input d.aqua_server
        (enter d s)

  -- getScanService().MsgHandling(in, pl, r, tmpl, &ctx.aquaServer)
  unfoldable pub run_dispatch : Dispatch engine → Action (Shared bolt) (Unit {0})
  run_dispatch d s = ((handled d s).0, leave d s (handled d s).1)

  -- The goroutines one after the other, with no tick of the checker between them; a panic in one of them
  -- ends the program.
  unfoldable pub run_all : List (Dispatch engine) → Action (Shared bolt) (Unit {0})
  unfolding run_dispatch
  run_all [] = pure tt
  run_all (d ∷ ds) = do run_dispatch d; run_all ds

  unfoldable pub run_turn : Turn engine → Action (Shared bolt) (Unit {0})
  unfolding run_dispatch check_data
  run_turn (goroutine d) s = run_dispatch d s
  run_turn (check limit date_fmt now) s = with_file (check_data bolt limit date_fmt now s.file) s

  -- The turns one after the other; a panic ends the program.
  unfoldable pub run_turns : List (Turn engine) → Action (Shared bolt) (Unit {0})
  unfolding run_turn
  run_turns [] = pure tt
  run_turns (t ∷ ts) = do run_turn t; run_turns ts
