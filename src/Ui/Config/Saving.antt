-- ===== src/Ui/Config/Saving.antt =====
-- ui/backend/uiserver/config.go: what updateConfig leaves on the disk.
use postee.Prelude.{
  String, List, [], ◌∷◌, Result, ok, err, ◌≡◌, inl, inr, refl, ap, ◌∙◌, Option-cases, Result-cases,
}
use postee.Ui.World.{Disk, DiskLaws, Request, Answer, UiServer}
use postee.Ui.Config.{
  ConfigServices, World, update_config, copy_path, reload_url, reload_webhook_cfg, after_create,
  after_write, after_key,
}

module _ {disk : Disk} (services : ConfigServices disk) (srv : UiServer) where
  open disk use {Files, read_file, rename, create_file, write, remove_all}

  -- What an update leaves on the disk: the files that were there; or what was the configuration in the
  -- copy; or the text of the request as the configuration.
  pub data Kept {Cookie : Type 0} (text : String) (old : Files)
      : Answer Cookie × World disk → Type 0 where
    unchanged :
        (a : Answer Cookie) (called : List String)
        → a.statuses ≡ 400 ∷ []
        → Kept text old (a, record { files = old; called = called })
    in_copy :
        (a : Answer Cookie) (w : World disk)
        → a.statuses ≡ 400 ∷ []
        → read_file w.files (copy_path srv) ≡ read_file old srv.cfg_path
        → Kept text old (a, w)
    replaced :
        (a : Answer Cookie) (w : World disk)
        → read_file w.files srv.cfg_path ≡ ok text
        → Kept text old (a, w)

  after_key-files :
      (Cookie : Type 0) (r : Result String) (w : World disk)
      → (after_key Cookie disk services srv r w).1.files ≡ w.files
  unfolding reload_webhook_cfg
  after_key-files Cookie (err e) w = refl
  after_key-files Cookie (ok key) w =
      elim (Option-cases (services.http_get (reload_url srv.webhook_url key))) [
        | inl e ↦ rw e refl
        | inr (x, e) ↦ rw e refl
      ]

  module _ (Cookie : Type 0) (laws : DiskLaws disk srv.cfg_path (copy_path srv)) where
    after_write-Kept :
        (text : String) (old files : Files) (called : List String)
        → read_file files srv.cfg_path ≡ ok ""
        → read_file files (copy_path srv) ≡ read_file old srv.cfg_path
        → Kept text old
            (after_write Cookie disk services srv called (write files srv.cfg_path text))
    after_write-Kept text old files called empty kept =
        elim (Option-cases (write files srv.cfg_path text).0) [
          | inl e ↦
              rw (e, after_write)
                (replaced _ _ (
                  ap (λ f. read_file f srv.cfg_path) (after_key-files Cookie services.get_api_key _)
                  ∙ laws.read-remove _
                  ∙ laws.read-write files text empty e))
          | inr (x, e) ↦ rw (e, after_write) (in_copy _ _ refl (laws.copy-write files text ∙ kept))
        ]

    after_create-Kept :
        (text : String) (old files : Files) (called : List String)
        → read_file files (copy_path srv) ≡ read_file old srv.cfg_path
        → Kept text old (
            after_create Cookie disk services srv text files called
              (create_file files srv.cfg_path))
    after_create-Kept text old files called kept =
        elim (Result-cases (create_file files srv.cfg_path)) [
          | inl (created, e) ↦ rw e (
              after_write-Kept text old created called (laws.read-create files created e)
                (laws.copy-create files created e ∙ kept))
          | inr (x, e) ↦ rw e (in_copy _ _ refl kept)
        ]

    -- An update with a text that can be read, on a disk with the laws of regular files, loses neither text:
    -- afterwards the configuration is the new text; or the answer is 400 alone, and the configuration
    -- before stands in its place or in the copy.
    pub update_config-Kept :
        (r : Request Cookie) (text : String) (w : World disk)
        → r.body ≡ ok text
        → Kept text w.files (update_config Cookie disk services srv r w)
    unfolding update_config
    update_config-Kept r text w e =
        elim (Result-cases (rename w.files srv.cfg_path (copy_path srv))) [
          | inl (files, f) ↦
              rw (e, f)
                (after_create-Kept text w.files files w.called (laws.read-rename w.files files f))
          | inr (x, f) ↦ rw (e, f) (unchanged _ w.called refl)
        ]
