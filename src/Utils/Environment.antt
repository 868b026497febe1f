-- ===== src/Utils/Environment.antt =====
-- utils/utils.go and prnheaders.go: environment variables, the debug flag, and paths.
use postee.Prelude.{
  String, Bool, true, false, Option, Result, ok, err, Error, ◌==◌, not, if◌then◌else◌,
}

-- `getenv` stands for `os.Getenv`.
module _ (getenv : String → String) where
  unfoldable pub get_env : String → Result String
  get_env name = if getenv name == "" then err "not found" else ok (getenv name)

  -- The debug flag after `InitDebug`.
  unfoldable pub init_debug : Bool → Bool
  init_debug dbg =
      if not (getenv "AQUAALERT_DEBUG" == "")
      then true
      else if not (getenv "POSTEE_DEBUG" == "")
      then true
      else dbg

-- `abs` and `dir` stand for `filepath.Abs` and `filepath.Dir`, `program` for `os.Args[0]`.
unfoldable pub get_root_dir :
    (abs : String → Result String) (dir : String → String) (program : String) → Result String
get_root_dir abs dir program = abs (dir program)

-- How the call of `os.Stat` ends.
pub data PathStat : Type 0 where
  path_there path_missing path_unreadable : PathStat

-- A path that cannot be examined counts as one that exists.
unfoldable pub path_exists : (stat : String → PathStat) → String → Bool
path_exists stat name = elim (stat name) [ path_missing ↦ false | _ ↦ true ]

-- The text of a body as far as it could be read.
unfoldable pub prn_log_response : String × Option Error → String
prn_log_response body = body.0
