-- ===== src/Ui/Config/Reloading.antt =====
-- ui/backend/uiserver/config.go: what an update that is answered without an error has done.
use postee.Prelude.{
  String, List, [], ◌∷◌, Result, ok, err, ◌≡◌, ◌≢◌, ◌⊎◌, inl, inr, refl, ◌∙◌, Option-cases,
  Result-cases,
}
use postee.Ui.World.{Disk, DiskLaws, Request, Answer, UiServer}
use postee.Ui.Config.{
  ConfigServices, World, update_config, copy_path, reload_url, reload_webhook_cfg, after_create,
  after_write, after_key,
}

module _ {disk : Disk} (services : ConfigServices disk) (srv : UiServer) where
  open disk use {Files, read_file, rename, create_file, write, remove_all}

  -- The text is the configuration, and the web server of Postee was told to read it.
  pub record Told (text : String) (called : List String) (w : World disk) : Type 0 where
    pub key : String
    pub has_key : services.get_api_key ≡ ok key
    pub told : w.called ≡ reload_url srv.webhook_url key ∷ called
    pub saved : read_file w.files srv.cfg_path ≡ ok text

  -- An answer with a status is an error.
  abbrev ToldOrError :
      {Cookie : Type 0} → String → List String → Answer Cookie × World disk → Type 0
  ToldOrError text called r = (r.0.statuses ≢ []) ⊎ Told text called r.1

  module _ (Cookie : Type 0) (laws : DiskLaws disk srv.cfg_path (copy_path srv)) where
    after_key-Told :
        (text : String) (k : Result String) (w : World disk)
        → services.get_api_key ≡ k
        → read_file w.files srv.cfg_path ≡ ok text
        → ToldOrError text w.called (after_key Cookie disk services srv k w)
    unfolding reload_webhook_cfg
    after_key-Told text (err e) w k h = inl (λ c. cc)
    after_key-Told text (ok key) w k h =
        elim (Option-cases (services.http_get (reload_url srv.webhook_url key))) [
          | inl e ↦ rw e (inr (record { key = key; has_key = k; told = refl; saved = h }))
          | inr (x, e) ↦ rw e (inl (λ c. cc))
        ]

    after_write-Told :
        (text : String) (files : Files) (called : List String)
        → read_file files srv.cfg_path ≡ ok ""
        → ToldOrError text called
            (after_write Cookie disk services srv called (write files srv.cfg_path text))
    after_write-Told text files called empty =
        elim (Option-cases (write files srv.cfg_path text).0) [
          | inl e ↦
              rw (e, after_write)
                (after_key-Told text services.get_api_key _ refl
                  (laws.read-remove _ ∙ laws.read-write files text empty e))
          | inr (x, e) ↦ rw (e, after_write) (inl (λ c. cc))
        ]

    after_create-Told :
        (text : String) (files : Files) (called : List String)
        → ToldOrError text called (
            after_create Cookie disk services srv text files called
              (create_file files srv.cfg_path))
    after_create-Told text files called = elim (Result-cases (create_file files srv.cfg_path)) [
      | inl (created, e) ↦
          rw e (after_write-Told text created called (laws.read-create files created e))
      | inr (x, e) ↦ rw e (inl (λ c. cc))
    ]

    update_config-ToldOrError :
        (r : Request Cookie) (text : String) (w : World disk)
        → r.body ≡ ok text
        → ToldOrError text w.called (update_config Cookie disk services srv r w)
    unfolding update_config
    update_config-ToldOrError r text w e =
        elim (Result-cases (rename w.files srv.cfg_path (copy_path srv))) [
          | inl (files, f) ↦ rw (e, f) (after_create-Told text files w.called)
          | inr (x, f) ↦ rw (e, f) (inl (λ c. cc))
        ]

    -- An update that is answered with no status has written the text and told the web server.
    pub update_config-Told :
        (r : Request Cookie) (text : String) (w : World disk)
        → r.body ≡ ok text
        → (update_config Cookie disk services srv r w).0.statuses ≡ []
        → Told text w.called (update_config Cookie disk services srv r w).1
    update_config-Told r text w e s = elim (update_config-ToldOrError r text w e) [
      | inl n ↦ absurd (n s)
      | inr t ↦ t
    ]
