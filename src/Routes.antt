-- ===== src/Routes.antt =====
-- routes: a route of the configuration, its scheduler's channel, and its timeouts.

pub mod Timeouts
mod Tests
use postee.Prelude.{
  String, Bool, true, false, List, Option, none, Outcome, done, panicked, ◌==◌, if◌then◌else◌,
  Error,
}
use postee.Prelude.Int.{ℤ, pos, mul_int}
use postee.Prelude.Text.{has_suffix, trim_suffix, to_lower, replace_all, atoi}
use postee.Prelude.{ℕ, [], ◌∷◌}

-- The channel that stops a route's scheduler; a closed one is not nil.
pub data Scheduling : Type 0 where
  no_channel open_channel closed_channel : Scheduling

pub record Plugins : Type 0 where
  pub aggregate_message_number : ℤ
  pub aggregate_message_timeout : String
  pub aggregate_timeout_seconds : ℤ
  pub unique_message_props : List String
  pub unique_message_timeout : String
  pub unique_message_timeout_seconds : ℤ

pub record InputRoute : Type 0 where
  pub name : String
  pub input : String
  pub input_files : List String
  pub outputs : List String
  pub plugins : Plugins
  pub template : String
  pub scheduling : Scheduling

unfoldable pub is_scheduler_run : InputRoute → Bool
is_scheduler_run route = elim route.scheduling [ no_channel ↦ false | _ ↦ true ]

unfoldable pub start_scheduler : InputRoute → InputRoute
start_scheduler route = record route { scheduling = open_channel }

-- Closing a closed channel panics.
unfoldable pub stop_scheduler : InputRoute → Outcome InputRoute
stop_scheduler route = elim route.scheduling [
  | no_channel ↦ done route
  | open_channel ↦ done (record route { scheduling = closed_channel })
  | closed_channel ↦ panicked
]

-- The table of units; Go goes through it in any order.
abbrev pub times : List (String × ℕ)
times = ("s", 1) ∷ ("m", 60) ∷ ("h", 3600) ∷ ("d", 86400) ∷ []

-- The loop over the units that is left, and the conversion without a unit after it.
unfoldable pub convert : List (String × ℕ) → String → ℤ × Option Error
convert [] v = atoi v
convert ((suffix, k) ∷ rest) v =
    let later = convert rest v in
    let found : ℤ × Option Error =
      (mul_int (atoi (trim_suffix v suffix)).0 k, (atoi (trim_suffix v suffix)).1) in
    if has_suffix (to_lower v) suffix then found else later

-- `order` is the order in which this run goes through the units.
unfoldable pub parse_timeouts : (order : List (String × ℕ)) → String → ℤ × Option Error
unfolding convert
parse_timeouts order v =
    let spaceless = replace_all v b' ' "" in
    if spaceless == "" then (pos 0, none) else convert order spaceless

-- A timeout that cannot be read is logged, and the value beside the error is used.
unfoldable pub configure_timeouts : (order order' : List (String × ℕ)) → InputRoute → InputRoute
configure_timeouts order order' route = record route {
  plugins = record route.plugins {
    aggregate_timeout_seconds = (parse_timeouts order route.plugins.aggregate_message_timeout).0;
    unique_message_timeout_seconds = (parse_timeouts order' route.plugins.unique_message_timeout).0;
  };
}
