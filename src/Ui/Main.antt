-- ===== src/Ui/Main.antt =====
-- ui/backend/main.go and Instance of ui/backend/uiserver/server.go: the settings of the server.
use postee.Prelude.{
  String, Option, none, some, Error, Outcome, done, failed, panicked, ◌==◌, if◌then◌else◌,
}
use postee.Ui.World.{UiServer}

abbrev pub default_web_path : String
default_web_path = "/uiserver/www"

-- `Instance`: the directory of the page, and the fields of the server.
unfoldable pub instance_of :
    (web_local_path port cfg webhook_url admusr admpwd : String) → String × UiServer
instance_of web_local_path port cfg webhook_url admusr admpwd = (
  web_local_path,
  record {
    port = port;
    cfg_path = cfg;
    webhook_url = webhook_url;
    admusr = admusr;
    admpwd = admpwd;
  },
)

-- `getenv` and `open_log` stand for `os.Getenv` and `os.OpenFile`.
module _ (getenv : String → String) (open_log : String → Option Error) where
  abbrev env_or : (name default : String) → String
  env_or name default = if getenv name == "" then default else getenv name

  abbrev log_error : String → Option Error
  log_error logfile = if logfile == "" then none else open_log logfile

  -- `log.Fatalf`, the end of the process, is a failure.
  unfoldable pub ui_main : Outcome (String × UiServer)
  unfolding instance_of
  ui_main = elim (log_error (getenv "POSTEE_UI_LOGFILE")) [
    | some e ↦ panicked
    | none ↦
        if getenv "POSTEE_UI_CFG" == ""
        then failed
            "cfg file name is empty. You have to set a filename via \"POSTEE_UI_CFG\" environment variable."
        else done (
            instance_of (env_or "POSTEE_UI_WEB" default_web_path) (env_or "POSTEE_UI_PORT" "8090")
              (getenv "POSTEE_UI_CFG") (getenv "POSTEE_UI_UPDATE_URL")
              (env_or "POSTEE_ADMIN_USER" "admin") (env_or "POSTEE_ADMIN_PASSWORD" "admin"))
  ]
