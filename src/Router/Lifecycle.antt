-- ===== src/Router/Lifecycle.antt =====
-- What the router keeps over its start, its end and a reload.
use postee.Prelude.{
  ℕ, zero, suc, String, Bool, true, false, Option, none, some, List, [], ◌∷◌, ◌≡◌, ◌⊎◌, ap, inl,
  inr, refl, arith, err, Error, Outcome, done, failed, panicked, Dict, lookup, lookup-insert,
  eq_iff, if◌then◌else◌, Any, here, there,
}
use postee.Routes.{InputRoute}
use postee.Outputs.Records.{Output}
use postee.Rego.Eval.{Engine}
use postee.Router.Settings.{OutputSettings}
use postee.Router.Builders.{build_and_init_otpt}
use postee.Router.State.{
  Router, RouterServices, Ended, returned, blocked, crashed, parsev2cfg, quit, stopped,
  stop_schedulers, put_some, add_outputs, load, start, terminate, reload_config,
}

put_lem :
    (b : Bool) (n name : String) (p : Option Output) (os : Dict Output) (o : Output)
    → lookup name (if b then put_some n p os else os) ≡ some o
    → ((b ≡ true) × (n ≡ name) × (p ≡ some o)) ⊎ (lookup name os ≡ some o)
put_lem false n name p os o h = inr h
put_lem true n name none os o h = inr h
put_lem true n name (some q) os o h = ground (arith, lookup-insert n name q os, eq_iff n name)

module _ {engine : Engine} (services : RouterServices engine) where
  -- The settings of an enabled output that is made with the server.
  abbrev pub Makes : String → String → Output → OutputSettings → Type 0
  Makes server name o s =
      (s.enable ≡ true)
      × (s.name ≡ name)
      × (build_and_init_otpt services.getenv services.jira s server ≡ some o)

  -- Every output that the loop over the settings leaves is made by enabled settings of its name, with
  -- the server of this load, or was there before.
  pub add_outputs-from :
      (server : String) (settings : List OutputSettings) (os : Dict Output) (name : String)
      (o : Output)
      → lookup name (add_outputs services server settings os) ≡ some o
      → Any (Makes server name o) settings ⊎ (lookup name os ≡ some o)
  unfolding add_outputs
  add_outputs-from server [] os name o h = inr h
  add_outputs-from server (s ∷ rest) os name o h = elim (add_outputs-from server rest _ name o h) [
    | inl a ↦ inl (there a)
    | inr g ↦
        elim (put_lem s.enable s.name name
          (build_and_init_otpt services.getenv services.jira s server) os o g) [
            | inl m ↦ inl (here m)
            | inr f ↦ inr f
          ]
  ]

module _ {engine : Engine} where
  ended : Ended (Router engine) → Router engine → Router engine
  ended (returned c) d = c
  ended blocked d = d
  ended crashed d = d

  quit_lem :
      (ctx c : Router engine) (rs : Dict InputRoute) (n : ℕ)
      → quit ctx rs n ≡ returned c
      → (n ≡ suc c.listeners) × (ctx.cfgfile ≡ c.cfgfile)
  unfolding quit ended
  quit_lem ctx c rs zero h = cc
  quit_lem ctx c rs (suc n) h =
      (ap (λ x. suc (ended x ctx).listeners) h, ap (λ x. (ended x ctx).cfgfile) h)

  stopped_lem :
      (ctx c : Router engine) (o : Outcome (Dict InputRoute))
      → stopped ctx o ≡ returned c
      → (ctx.listeners ≡ suc c.listeners) × (ctx.cfgfile ≡ c.cfgfile)
  stopped_lem ctx c (done rs) h = quit_lem ctx c rs ctx.listeners h
  stopped_lem ctx c (failed e) h = cc
  stopped_lem ctx c panicked h = cc

  pub terminate_lem :
      (ctx c : Router engine)
      → terminate ctx ≡ returned c
      → (ctx.listeners ≡ suc c.listeners) × (ctx.cfgfile ≡ c.cfgfile)
  unfolding terminate
  terminate_lem ctx c h = stopped_lem ctx c (stop_schedulers ctx.input_routes) h

  abbrev emptied : Router engine → Router engine
  emptied c = record c { outputs = []; input_routes = []; templates = []; checker = false }

  start-unread :
      (services : RouterServices engine) (c : Router engine) (e : Error)
      → parsev2cfg services c.cfgfile ≡ err e
      → start services c.cfgfile c ≡ returned (some e, emptied c)
  unfolding start load
  start-unread services c e p = rw (p, load) refl

  blocked_lem :
      (services : RouterServices engine) (c : Router engine)
      → c.listeners ≡ 0
      → reload_config services (emptied c) ≡ blocked
  unfolding reload_config terminate stop_schedulers quit
  blocked_lem services c l = rw l refl

  -- Where a reload ends the only listener and then cannot read the configuration, it returns with no
  -- output, and every later reload blocks for ever, also with a configuration that is right.
  pub reload_config-stuck :
      (services later : RouterServices engine) (ctx c : Router engine) (e : Error)
      → terminate ctx ≡ returned c
      → ctx.listeners ≡ 1
      → parsev2cfg services ctx.cfgfile ≡ err e
      → (ctx' : Router engine) × (reload_config services ctx ≡ returned ctx')
        × (ctx'.outputs ≡ [])
        × (reload_config later ctx' ≡ blocked)
  unfolding reload_config
  reload_config-stuck services later ctx c e t l p =
      let (n, f) = terminate_lem ctx c t in
      (
        emptied c,
        rw t (rw (start-unread services c e (rw (← f) p)) refl),
        refl,
        blocked_lem later c (omega (arith, n, l)),
      )
