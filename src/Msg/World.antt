-- ===== src/Msg/World.antt =====
-- What the handling of messages reads and changes, and what it calls outside its package.
use postee.Prelude.{String, Bool, List, Result, Outcome, Action, done, failed, panicked}
use postee.Prelude.Int.{ℤ}
use postee.Routes.{InputRoute}
use postee.Db.Bolt.{Bolt}
use postee.Db.Aggregator.{Content, Codec}
use postee.Msg.Value.{Value, Fields, Decoded}

-- The database, the route that the message came by, and the contents that were handed to outputs,
-- by the output's name, the last one first.
pub record World (bolt : Bolt) : Type 0 where
  pub file : bolt.File
  pub route : InputRoute
  pub sent : List (String × Content)

-- data.Inpteval: the template of the route.
pub record Inpteval : Type 0 where
  pub eval : Fields → String → Outcome Content
  pub build_aggregated_content : List Content → Outcome Content
  pub is_aggregation_supported : Bool

-- The standard library, the clock and the rego engine, as far as msgservice uses them.
pub record Services (bolt : Bolt) : Type 0 where
  pub codec : Codec
  pub date_fmt : ℤ → String
  pub now : ℤ
  pub show : Value → String
  pub unmarshal : String → Result Decoded
  pub does_match_rego_criteria : Decoded → List String → String → Result Bool

abbrev pub log_error : Outcome (Unit {0}) → Outcome (Unit {0})
log_error (failed e) = done tt
log_error (done u) = done u
log_error panicked = panicked

module _ {bolt : Bolt} where
  -- A call into dbservice.
  abbrev pub on_file : {A : Type 0} → Action bolt.File A → Action (World bolt) A
  on_file m w = ((m w.file).0, record w { file = (m w.file).1 })

  -- A function that logs an error and returns.
  abbrev pub logged : Action (World bolt) (Unit {0}) → Action (World bolt) (Unit {0})
  logged m w = (log_error (m w).0, (m w).1)
