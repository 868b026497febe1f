-- ===== src/System/Saved.antt =====
-- The user interface, webserver and router together: a configuration that is saved, and the reload.
mod Tests
use postee.Prelude.{
  String, Bool, true, Option, List, [], ◌∷◌, ◌≡◌, ◌≢◌, ◌∙◌, ap, sym, subst, refl, arith, Result, ok,
  err, Error, eq_refl, ◌==◌, if◌then◌else◌,
}
use postee.Rego.Eval.{Engine}
use postee.Router.Settings.{TenantSettings}
use postee.Router.State.{Router, RouterServices, Ended, returned, parsev2cfg, start, reload_config}
use postee.Router.Reload.{reload_config-start}
use postee.Web.{Served, with_api_key}
use postee.Ui.World.{Disk, DiskLaws, Request, UiServer}
use postee.Ui.Config.{ConfigServices, World, copy_path, reload_url, update_config}
use postee.Ui.Config.Reloading.{Told, update_config-Told}

module _ {engine : Engine} (services : RouterServices engine) (stored : Result String)
    (query_key : String → String) where
  -- router.Instance().ReloadConfig(), if the guard lets the request on.
  abbrev reload_if : Bool → Router engine → Ended (Router engine)
  reload_if reached ctx = if reached then reload_config services ctx else returned ctx

  -- A request for the reload, by its URL; `query_key` stands for the key of the parsed URL.
  unfoldable pub get_reload : String → Router engine → Served × Ended (Router engine)
  get_reload url ctx = (
    with_api_key stored (query_key url),
    reload_if (with_api_key stored (query_key url)).reached ctx,
  )

  let_on : (key : String) → stored ≡ ok key → (with_api_key stored key).reached ≡ true
  unfolding with_api_key
  let_on key h = rw (h, eq_refl key) refl

  reloads :
      (url key : String) (ctx : Router engine)
      → query_key url ≡ key
      → stored ≡ ok key
      → (get_reload url ctx).1 ≡ reload_config services ctx
  unfolding get_reload
  reloads url key ctx q h = rw (q, let_on key h) refl

  -- What a user saves is what Postee runs: where an update is answered without an error and the reload
  -- that it asked for returns, the router is that of a first start with the text of the update; where
  -- both programs use one file and one database, the text is a configuration that names a server, and the
  -- key is read of the URL as it was written.
  pub update_config-get_reload :
      {disk : Disk} (ui : ConfigServices disk) (srv : UiServer) (Cookie : Type 0)
      (laws : DiskLaws disk srv.cfg_path (copy_path srv)) (r : Request Cookie) (text url : String)
      (w : World disk) (ctx ctx' first d : Router engine) (e : Option Error)
      (tenant : TenantSettings)
      → r.body ≡ ok text
      → (update_config Cookie disk ui srv r w).0.statuses ≡ []
      → (update_config Cookie disk ui srv r w).1.called ≡ url ∷ w.called
      → services.read_file srv.cfg_path
        ≡ disk.read_file (update_config Cookie disk ui srv r w).1.files srv.cfg_path
      → stored ≡ ui.get_api_key
      → ((key : String)
          → ui.get_api_key ≡ ok key
          → query_key (reload_url srv.webhook_url key) ≡ key)
      → services.yaml_unmarshal text ≡ ok tenant
      → tenant.aqua_server ≢ ""
      → ctx.cfgfile ≡ srv.cfg_path
      → start services ctx.cfgfile first ≡ returned (e, d)
      → (get_reload url ctx).1 ≡ returned ctx'
      → ctx' ≡ record d { listeners = ctx.listeners }
  unfolding parsev2cfg
  update_config-get_reload ui srv Cookie laws r text url w ctx ctx' first d e tenant b s c f k q y n
        p i g =
      let t = update_config-Told ui srv Cookie laws r text w b s in
      let same : reload_url srv.webhook_url t.key ≡ url =
        ap (λ l. first_of l url) (sym t.told ∙ c) in
      let parsed : parsev2cfg services ctx.cfgfile ≡ ok tenant =
        rw (p, f ∙ t.saved, parsev2cfg) y in
      reload_config-start services ctx ctx' first d e tenant parsed n
        (sym (reloads url t.key ctx (rw (← same) (q t.key t.has_key)) (k ∙ t.has_key)) ∙ g) i
    where
      first_of : List String → String → String
      first_of [] x = x
      first_of (y ∷ l) x = y
