-- ===== src/Command.antt =====
-- main.go: the flags and the environment of the program, and the order in which its parts start and end.
use postee.Prelude.{String, Bool, Option, none, some, List, [], ◌∷◌, Error, ◌==◌, if◌then◌else◌}
use postee.Db.Params.{Stat, set_new_db_path_from_env}

-- The flags, with their defaults where the command line does not give them.
pub record Flags : Type 0 where
  pub url : String
  pub tls : String
  pub cfgfile : String

abbrev pub default_flags : Flags
default_flags = record { url = "0.0.0.0:8082"; tls = "0.0.0.0:8445"; cfgfile = "/config/cfg.yaml" }

-- What the program does, in its order.
pub data Event : Type 0 where
  db_path : String → Event
  router_started : (cfgfile : String) → Event
  web_started : (url tls : String) → Event
  signalled web_terminated router_terminated : Event

-- `getenv`, `stat` and `mkdir_all_dir` as in Db/Params; `start_router` is how the router's Start ends.
module _ (getenv : String → String) (stat : String → Stat) (mkdir_all_dir : String → Bool)
    (start_router : String → Option Error) where
  abbrev unless_set : (name value : String) → String
  unless_set name value = if getenv name == "" then value else getenv name

  -- The newer variable is read last.
  unfoldable pub with_env : Flags → Flags
  with_env flags = record {
    url = unless_set "POSTEE_HTTP" (unless_set "AQUAALERT_URL" flags.url);
    tls = unless_set "POSTEE_HTTPS" (unless_set "AQUAALERT_TLS" flags.tls);
    cfgfile = unless_set "POSTEE_CFG" (unless_set "AQUAALERT_CFG" flags.cfgfile);
  }

  abbrev path_events : String → List Event → List Event
  path_events path later =
      if getenv "PATH_TO_DB" == ""
      then later
      else db_path (set_new_db_path_from_env getenv stat mkdir_all_dir path) ∷ later

  -- The parts end in the reverse of the order in which they start, after a signal.
  abbrev served : Option Error → Flags → List Event
  served (some e) flags = []
  served none flags =
      router_started flags.cfgfile
      ∷ web_started flags.url flags.tls
      ∷ signalled
      ∷ web_terminated
      ∷ router_terminated
      ∷ []

  unfoldable pub run_root : (db_path_before : String) → Flags → List Event
  unfolding with_env
  run_root db_path_before flags =
      path_events db_path_before (served (start_router (with_env flags).cfgfile) (with_env flags))
