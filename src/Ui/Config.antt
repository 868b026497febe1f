-- ===== src/Ui/Config.antt =====
-- ui/backend/uiserver/config.go: the configuration file is read and written over.
pub mod Saving
pub mod Reloading
use Prim.Native.String.{◌++◌}
use postee.Prelude.{String, Option, none, some, List, [], ◌∷◌, Result, ok, err, Error}
use postee.Ui.World.{Cookies, Disk, Request, Answer, UiServer, nothing_written, answer, http_error}

-- What the handlers call of the older release, and http.Get, by the URL.
pub record ConfigServices (disk : Disk) : Type 0 where
  pub parsev2cfg : disk.Files → String → Option Error
  pub get_api_key : Result String
  pub http_get : String → Option Error

-- The files, and the URLs that were called, the last one first.
pub record World (disk : Disk) : Type 0 where
  pub files : disk.Files
  pub called : List String

abbrev pub copy_path : UiServer → String
copy_path srv = srv.cfg_path ++ ".copy"

abbrev pub reload_url : (url key : String) → String
reload_url url key = url ++ ("/reload?key=" ++ key)

module _ (disk : Disk) (services : ConfigServices disk) where
  unfoldable pub reload_webhook_cfg : (url key : String) → World disk → Option Error × World disk
  reload_webhook_cfg url key w =
      (services.http_get (reload_url url key), record w { called = reload_url url key ∷ w.called })

module _ (Cookie : Type 0) (disk : Disk) (services : ConfigServices disk) where
  open disk use {Files, read_file, rename, create_file, write, remove_all}

  abbrev file_answer : Result String → Answer Cookie
  file_answer (err e) = answer 500 e
  file_answer (ok text) = answer 200 text

  -- The answer of a handler, and the world that it leaves.
  abbrev Handled : Type 0
  Handled = Answer Cookie × World disk

  unfoldable pub get_config : UiServer → World disk → Handled
  get_config srv w = elim (services.parsev2cfg w.files srv.cfg_path) [
    | some e ↦ (answer 500 ("Invalid config file format: " ++ e), w)
    | none ↦ (file_answer (read_file w.files srv.cfg_path), w)
  ]

  abbrev after_reload : Option Error × World disk → Handled
  after_reload (some e, w) = (http_error 400 "Can not reload webhook server", w)
  after_reload (none, w) = (nothing_written, w)

  abbrev after_key : UiServer → Result String → World disk → Handled
  after_key srv (err e) w = (http_error 401 "Unauthorized", w)
  after_key srv (ok key) w = after_reload (reload_webhook_cfg disk services srv.webhook_url key w)

  -- The file is written: the copy is removed, and the web server of Postee is told to read it.
  abbrev after_write : UiServer → List String → Option Error × Files → Handled
  after_write srv called (some e, files) = (
    http_error 400 "Can't write to the config file for overwrite",
    record { files = files; called = called },
  )
  after_write srv called (none, files) =
      after_key srv services.get_api_key
        (record { files = (remove_all files (copy_path srv)).1; called = called })

  abbrev after_create : UiServer → String → Files → List String → Result Files → Handled
  after_create srv text old called (err e) = (
    http_error 400 "Can't open the config file for overwrite",
    record { files = old; called = called },
  )
  after_create srv text old called (ok files) =
      after_write srv called (write files srv.cfg_path text)

  abbrev after_rename : UiServer → String → World disk → Result Files → Handled
  after_rename srv text w (err e) =
      (http_error 400 "Can't remove data from the config file for overwrite", w)
  after_rename srv text w (ok files) =
      after_create srv text files w.called (create_file files srv.cfg_path)

  unfoldable pub update_config : UiServer → Request Cookie → World disk → Handled
  unfolding reload_webhook_cfg
  update_config srv r w = elim r.body [
    | err e ↦ (http_error 400 "Can't read JSON string", w)
    | ok text ↦ after_rename srv text w (rename w.files srv.cfg_path (copy_path srv))
  ]
