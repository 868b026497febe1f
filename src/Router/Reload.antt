-- ===== src/Router/Reload.antt =====
-- A reload beside a first start with the same configuration.
use postee.Prelude.{
  ℕ, suc, String, true, Option, [], ◌≡◌, ◌≢◌, ap, inl, inr, refl, sym, ◌∙◌, ok, Error, Outcome,
  Outcome-cases, done, failed, panicked, Dict, eq_iff, ◌==◌, Bool-cases,
}
use postee.Prelude.Int.{pos, leb_ℤ}
use postee.Rego.Eval.{Engine}
use postee.Rego.Build.{Evaluator}
use postee.Router.Settings.{TenantSettings}
use postee.Router.State.{
  Router, RouterServices, Ended, returned, blocked, crashed, parsev2cfg, add_outputs, add_routes,
  init_templates, image_url, period, load, start, terminate, reload_config, after_start, restart,
}
use postee.Router.Lifecycle.{terminate_lem}

module _ {engine : Engine} (services : RouterServices engine) where
  image_url_lem :
      (server old other : String)
      → server ≢ ""
      → image_url services server old ≡ image_url services server other
  unfolding image_url
  image_url_lem server old other n = elim (Bool-cases (server == "")) [
    | inl e ↦ absurd (n ((eq_iff server "").0 e))
    | inr e ↦ rw e refl
  ]

  -- The router with what the settings say and nothing else but its listeners.
  abbrev configured_by :
      TenantSettings → (cfgfile server : String) → Dict (Evaluator engine) → ℕ → Router engine
  configured_by tenant cfgfile server ts n = record {
    cfgfile = cfgfile;
    aqua_server = server;
    outputs = add_outputs services server tenant.outputs [];
    input_routes = add_routes services tenant.input_routes [];
    templates = ts;
    db_size_limit = tenant.db_max_size;
    checker = true;
    listeners = n;
  }

  ended : Ended (Option Error × Router engine) → Router engine → Router engine
  ended (returned (e, c)) d = c
  ended blocked d = d
  ended crashed d = d

  -- A start that returns without an error leaves the router with what the settings say.
  start-configured :
      (cfgfile : String) (ctx : Router engine) (e : Option Error) (d : Router engine)
      (tenant : TenantSettings)
      → parsev2cfg services cfgfile ≡ ok tenant
      → start services cfgfile ctx ≡ returned (e, d)
      → (ts : Dict (Evaluator engine)) × (init_templates services tenant.templates [] ≡ done ts)
        × (d
            ≡ configured_by tenant cfgfile
                (image_url services tenant.aqua_server ctx.aqua_server)
                ts
                (suc ctx.listeners))
  unfolding start load ended
  start-configured cfgfile ctx e d tenant p h =
      let g = rw (p, load) at h in
      elim (Bool-cases (leb_ℤ (period services tenant.db_test_interval) (pos 0))) [
        | inl bad ↦ let clash = rw bad at g in absurd (cc)
        | inr good ↦ elim (Outcome-cases (init_templates services tenant.templates [])) [
          | inl (ts, t) ↦ (ts, t, ap (λ r. ended r d) (sym (rw (good, t) at g)))
          | inr (inl (x, t)) ↦ let clash = rw (good, t) at g in absurd (cc)
          | inr (inr t) ↦ let clash = rw (good, t) at g in absurd (cc)
        ]
      ]

  after_start_lem :
      (r : Ended (Option Error × Router engine)) (d : Router engine)
      → after_start services r ≡ returned d
      → (e : Option Error) × (r ≡ returned (e, d))
  after_start_lem (returned (e, c)) d h = (e, ap (λ x. returned (e, left x c)) h)
    where
      left : Ended (Router engine) → Router engine → Router engine
      left (returned c) d = c
      left blocked d = d
      left crashed d = d
  after_start_lem blocked d h = absurd (cc)
  after_start_lem crashed d h = absurd (cc)

  restart_lem :
      (r : Ended (Router engine)) (d : Router engine)
      → restart services r ≡ returned d
      → (c : Router engine) × (e : Option Error) × (r ≡ returned c)
        × (start services c.cfgfile c ≡ returned (e, d))
  restart_lem (returned c) d h =
      let (e, s) = after_start_lem (start services c.cfgfile c) d h in (c, e, refl, s)
  restart_lem blocked d h = absurd (cc)
  restart_lem crashed d h = absurd (cc)

  same_templates :
      (o : Outcome (Dict (Evaluator engine))) (ts us : Dict (Evaluator engine))
      → o ≡ done ts
      → o ≡ done us
      → ts ≡ us
  same_templates o ts us h k = ap (λ x. value x ts) (sym h ∙ k)
    where
      value : Outcome (Dict (Evaluator engine)) → Dict (Evaluator engine) → Dict (Evaluator engine)
      value (done x) y = x
      value (failed e) y = y
      value panicked y = y

  -- A reload that returns leaves the router as a first start with the same configuration does, with its
  -- own number of listeners: of what was configured before nothing is left; where the configuration can
  -- be read and names a server.
  pub reload_config-start :
      (ctx ctx' first d : Router engine) (e : Option Error) (tenant : TenantSettings)
      → parsev2cfg services ctx.cfgfile ≡ ok tenant
      → tenant.aqua_server ≢ ""
      → reload_config services ctx ≡ returned ctx'
      → start services ctx.cfgfile first ≡ returned (e, d)
      → ctx' ≡ record d { listeners = ctx.listeners }
  unfolding reload_config
  reload_config-start ctx ctx' first d e tenant p n r s =
      let (c, e', t, s') = restart_lem (terminate ctx) ctx' r in
      let (l, same) = terminate_lem ctx c t in
      let (ts, i, f) = start-configured c.cfgfile c e' ctx' tenant (rw same at p) s' in
      let (us, j, g) = start-configured ctx.cfgfile first e d tenant p s in
      let k = same_templates _ ts us i j in
      let url = image_url_lem tenant.aqua_server c.aqua_server first.aqua_server n in
      f ∙ rw (g, l, same, k, url) refl
