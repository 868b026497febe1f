-- ===== src/Router/State.antt =====
-- router/router.go: the router's state, its start and end, and the dispatch of messages.
use Prim.Native.String.{◌++◌}
use postee.Prelude.{
  ℕ, zero, suc, String, Bool, true, false, Option, none, some, List, [], ◌∷◌, Result, ok, err,
  Error, Outcome, done, failed, panicked, Dict, insert, ◌==◌, if◌then◌else◌, ltb,
}
use postee.Prelude.Int.{ℤ, pos, leb_ℤ, eqb_ℤ, mul_int}
use postee.Prelude.Text.{has_suffix}
use postee.Routes.{InputRoute, configure_timeouts, stop_scheduler}
use postee.Outputs.Records.{Output, JiraServices}
use postee.Rego.Eval.{Engine}
use postee.Rego.Build.{
  Source, Evaluator, build_legacy_scn_evaluator, build_bundled_rego_evaluator,
  build_external_rego_evaluator,
}
use postee.Router.Settings.{OutputSettings, Template, TenantSettings}
use postee.Router.Builders.{build_and_init_otpt}

-- `listeners` counts the goroutines that run `listen`; `checker` tells whether there is a ticker and
-- the goroutine that checks the database, and `db_size_limit` is `dbservice.DbSizeLimit`.
pub record Router (engine : Engine) : Type 0 where
  pub cfgfile : String
  pub aqua_server : String
  pub outputs : Dict Output
  pub input_routes : Dict InputRoute
  pub templates : Dict (Evaluator engine)
  pub db_size_limit : ℤ
  pub checker : Bool
  pub listeners : ℕ

-- Files, YAML, HTTP, the environment and the engine. `request` stands for the parsing of a URL and
-- gives the last part of its path; `order` is how Go goes through the units of a timeout.
pub record RouterServices (engine : Engine) : Type 0 where
  pub read_file : String → Result String
  pub yaml_unmarshal : String → Result TenantSettings
  pub request : String → Result String
  pub http_get : String → Result (ℕ × Result String)
  pub prepare : Source → Result engine.Query
  pub getenv : String → String
  pub jira : JiraServices
  pub order : List (String × ℕ)

-- How a call on the router ends; a send on a channel that nothing receives from blocks for ever.
pub data Ended (A : Type 0) : Type 0 where
  returned : A → Ended A
  blocked : Ended A
  crashed : Ended A

unfoldable pub stop_schedulers : Dict InputRoute → Outcome (Dict InputRoute)
stop_schedulers [] = done []
stop_schedulers ((name, r) ∷ rest) = elim (stop_scheduler r) [
  | done r' ↦ elim (stop_schedulers rest) [ done rs ↦ done ((name, r') ∷ rs) | o ↦ o ]
  | failed e ↦ failed e
  | panicked ↦ panicked
]

abbrev pub put_some : String → Option Output → Dict Output → Dict Output
put_some name none os = os
put_some name (some o) os = insert name o os

module _ {engine : Engine} where
  -- ctx.quit <- struct{}{}
  unfoldable pub quit : Router engine → Dict InputRoute → ℕ → Ended (Router engine)
  quit ctx rs zero = blocked
  quit ctx rs (suc n) = returned (record ctx { input_routes = rs; listeners = n })

  abbrev pub stopped : Router engine → Outcome (Dict InputRoute) → Ended (Router engine)
  stopped ctx (done rs) = quit ctx rs ctx.listeners
  stopped ctx (failed e) = crashed
  stopped ctx panicked = crashed

  unfoldable pub terminate : Router engine → Ended (Router engine)
  unfolding stop_schedulers quit
  terminate ctx = stopped ctx (stop_schedulers ctx.input_routes)

module _ {engine : Engine} (services : RouterServices engine) where
  unfoldable pub parsev2cfg : String → Result TenantSettings
  parsev2cfg cfgpath = elim (services.read_file cfgpath) [
    | err e ↦ err e
    | ok text ↦ services.yaml_unmarshal text
  ]

  -- One way to configure a template: the templates that are left when it fails, and whether it did.
  abbrev configured :
      String
      → Outcome (Evaluator engine)
      → Dict (Evaluator engine)
      → Outcome (Option Error × Dict (Evaluator engine))
  configured name (done inpteval) ts = done (none, insert name inpteval ts)
  configured name (failed e) ts = done (some e, ts)
  configured name panicked ts = panicked

  abbrev unless_failed :
      Outcome (Option Error × Dict (Evaluator engine))
      → (Dict (Evaluator engine) → Outcome (Option Error × Dict (Evaluator engine)))
      → Outcome (Option Error × Dict (Evaluator engine))
  unless_failed (done (none, ts)) next = next ts
  unless_failed (done (some e, ts)) next = done (some e, ts)
  unless_failed (failed e) next = failed e
  unless_failed panicked next = panicked

  abbrev of_body : String → Result String → Outcome (Evaluator engine)
  of_body base (err e) = failed e
  of_body base (ok body) = build_external_rego_evaluator engine services.prepare base body

  abbrev of_response : String → Result (ℕ × Result String) → Outcome (Evaluator engine)
  of_response base (err e) = failed e
  of_response base (ok (status, body)) =
      if ltb 399 status then failed "can not connect" else of_body base body

  abbrev from_url : String → Outcome (Evaluator engine)
  from_url url = elim (services.request url) [
    | err e ↦ failed e
    | ok base ↦ of_response base (services.http_get url)
  ]

  unfoldable pub init_template :
      Template → Dict (Evaluator engine) → Outcome (Option Error × Dict (Evaluator engine))
  init_template t ts =
      unless_failed
        (if t.legacy_scan_renderer == ""
          then done (none, ts)
          else configured t.name (build_legacy_scn_evaluator t.legacy_scan_renderer) ts)
        λ ts.
          unless_failed
            (if t.rego_package == ""
              then done (none, ts)
              else configured t.name
                  (build_bundled_rego_evaluator engine services.prepare t.rego_package) ts)
            λ ts.
              unless_failed
                (if t.url == "" then done (none, ts) else configured t.name (from_url t.url) ts)
                λ ts.
                  if t.body == ""
                  then done (none, ts)
                  else configured t.name
                      (build_external_rego_evaluator engine services.prepare "inline.rego" t.body)
                      ts

  -- The loop over the templates; an error is logged.
  unfoldable pub init_templates :
      List Template → Dict (Evaluator engine) → Outcome (Dict (Evaluator engine))
  unfolding init_template
  init_templates [] ts = done ts
  init_templates (t ∷ rest) ts = elim (init_template t ts) [
    | done (e, ts') ↦ init_templates rest ts'
    | failed e ↦ failed e
    | panicked ↦ panicked
  ]

  unfoldable pub add_routes : List InputRoute → Dict InputRoute → Dict InputRoute
  add_routes [] rs = rs
  add_routes (r ∷ rest) rs =
      add_routes rest (insert r.name (configure_timeouts services.order services.order r) rs)

  unfoldable pub add_outputs : String → List OutputSettings → Dict Output → Dict Output
  add_outputs server [] os = os
  add_outputs server (s ∷ rest) os = add_outputs server rest (
      if s.enable
      then put_some s.name (build_and_init_otpt services.getenv services.jira s server) os
      else os)

  unfoldable pub image_url : String → String → String
  image_url aqua_server old =
      if aqua_server == ""
      then old
      else aqua_server ++ ((if has_suffix aqua_server "/" then "" else "/") ++ "#/images/")

  -- The period of the checks of the database; `time.NewTicker` panics unless it is positive.
  abbrev pub period : ℤ → ℤ
  period hours = mul_int (if eqb_ℤ hours (pos 0) then pos 1 else hours) 3600000000000

  with_templates :
      TenantSettings
      → Router engine
      → Outcome (Dict (Evaluator engine))
      → Ended (Option Error × Router engine)
  with_templates tenant ctx (done ts) = returned (
    none,
    record ctx { templates = ts; outputs = add_outputs ctx.aqua_server tenant.outputs ctx.outputs },
  )
  with_templates tenant ctx (failed e) = crashed
  with_templates tenant ctx panicked = crashed

  load_tenant : TenantSettings → Router engine → Ended (Option Error × Router engine)
  load_tenant tenant ctx =
      if leb_ℤ (period tenant.db_test_interval) (pos 0)
      then crashed
      else with_templates tenant
          (record ctx {
            aqua_server = image_url tenant.aqua_server ctx.aqua_server;
            db_size_limit = tenant.db_max_size;
            checker = true;
            input_routes = add_routes tenant.input_routes ctx.input_routes;
          })
          (init_templates tenant.templates ctx.templates)

  unfoldable pub load : Router engine → Ended (Option Error × Router engine)
  unfolding load_tenant with_templates parsev2cfg init_templates add_routes add_outputs image_url
  load ctx = elim (parsev2cfg ctx.cfgfile) [
    | err e ↦ returned (some e, ctx)
    | ok tenant ↦ load_tenant tenant ctx
  ]

  abbrev listening : Ended (Option Error × Router engine) → Ended (Option Error × Router engine)
  listening (returned (none, ctx)) = returned (none, record ctx { listeners = suc ctx.listeners })
  listening (returned (some e, ctx)) = returned (some e, ctx)
  listening blocked = blocked
  listening crashed = crashed

  unfoldable pub start : String → Router engine → Ended (Option Error × Router engine)
  unfolding load
  start cfgfile ctx = listening (
      load (record ctx {
        cfgfile = cfgfile;
        outputs = [];
        input_routes = [];
        templates = [];
        checker = false;
      }))

  -- An error of the start is logged.
  abbrev pub after_start : Ended (Option Error × Router engine) → Ended (Router engine)
  after_start (returned (e, ctx)) = returned ctx
  after_start blocked = blocked
  after_start crashed = crashed

  abbrev pub restart : Ended (Router engine) → Ended (Router engine)
  restart (returned ctx) = after_start (start ctx.cfgfile ctx)
  restart blocked = blocked
  restart crashed = crashed

  unfoldable pub reload_config : Router engine → Ended (Router engine)
  unfolding terminate start
  reload_config ctx = restart (terminate ctx)
