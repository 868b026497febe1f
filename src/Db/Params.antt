-- ===== src/Db/Params.antt =====
-- dbservice/dbparam.go: the path of the file.
use postee.Prelude.{String, Bool, ◌==◌, if◌then◌else◌}

-- What `os.Stat` says of a path.
pub data Stat : Type 0 where
  exists not_exist other_error : Stat

-- The path after `SetNewDbPathFromEnv`. `getenv`, `stat` and `mkdir_all_dir` stand for `os.Getenv`,
-- `os.Stat` and `os.MkdirAll(filepath.Dir(_))`, which succeeds or not.
module _ (getenv : String → String) (stat : String → Stat) (mkdir_all_dir : String → Bool) where
  unfoldable pub set_new_db_path_from_env : String → String
  set_new_db_path_from_env db_path =
      let new_path = getenv "PATH_TO_DB" in
      if new_path == "" then db_path else elim (stat new_path) [
        | exists ↦ new_path
        | not_exist ↦ if mkdir_all_dir new_path then new_path else db_path
        | other_error ↦ db_path
      ]
