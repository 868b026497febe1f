-- ===== src/Router/Dispatch.antt =====
-- router/router.go: HandleRoute, handle and listen.
use postee.Prelude.{
  String, Option, none, some, List, [], ◌∷◌, ◌++◌, ◌≡◌, inl, inr, refl, Dict, lookup, Option-cases,
  subst,
}
use postee.Prelude.Text.{replace_all}
use postee.Routes.{InputRoute}
use postee.Outputs.Records.{Output}
use postee.Rego.Eval.{Engine}
use postee.Rego.Build.{Evaluator}
use postee.Router.State.{Router}

-- One goroutine that runs MsgHandling.
pub record Dispatch (engine : Engine) : Type 0 where
  pub input : String
  pub output : Output
  pub route : InputRoute
  pub template : Evaluator engine
  pub aqua_server : String

module _ {engine : Engine} where
  -- One round of the loop over the route's outputs.
  dispatch_to :
      Router engine
      → String
      → InputRoute
      → Option Output
      → Option (Evaluator engine)
      → List (Dispatch engine)
  dispatch_to ctx in_ r none t = []
  dispatch_to ctx in_ r (some o) none = []
  dispatch_to ctx in_ r (some o) (some t) =
      record { input = in_; output = o; route = r; template = t; aqua_server = ctx.aqua_server }
      ∷ []

  dispatch_all : Router engine → String → InputRoute → List String → List (Dispatch engine)
  dispatch_all ctx in_ r [] = []
  dispatch_all ctx in_ r (name ∷ names) =
      dispatch_to ctx in_ r (lookup name ctx.outputs) (lookup r.template ctx.templates)
      ++ dispatch_all ctx in_ r names

  -- The goroutines that a message starts, in their order.
  unfoldable pub handle_route : Router engine → String → String → List (Dispatch engine)
  unfolding dispatch_all dispatch_to
  handle_route ctx route_name in_ = elim (lookup route_name ctx.input_routes) [
    | none ↦ []
    | some r ↦ dispatch_all ctx in_ r r.outputs
  ]

  unfoldable pub handle_names : Router engine → String → Dict InputRoute → List (Dispatch engine)
  handle_names ctx in_ [] = []
  handle_names ctx in_ ((name, r) ∷ rest) = handle_route ctx name in_ ++ handle_names ctx in_ rest

  -- Go goes through the routes in any order; here in the order in which they stand.
  unfoldable pub handle : Router engine → String → List (Dispatch engine)
  unfolding handle_names
  handle ctx in_ = handle_names ctx in_ ctx.input_routes

  -- What `listen` does with a message of the queue.
  unfoldable pub on_message : Router engine → String → List (Dispatch engine)
  on_message ctx in_ = handle ctx (replace_all in_ b'`' "'")

  -- The route and its output are there, and the route's template is.
  pub record Wanted (ctx : Router engine) (route_name in_ name : String) (d : Dispatch engine)
      : Type 0 where
    pub from : lookup route_name ctx.input_routes ≡ some d.route
    pub to : lookup name ctx.outputs ≡ some d.output
    pub by : lookup d.route.template ctx.templates ≡ some d.template
    pub carries : d.input ≡ in_
    pub server : d.aqua_server ≡ ctx.aqua_server

  -- Reads the dispatches beside the names: each is the wanted one of its name, and a name that has
  -- none is passed over.
  pub data Follows (ctx : Router engine) (route_name in_ : String)
      : List String → List (Dispatch engine) → Type 0 where
    finished : Follows ctx route_name in_ [] []
    sent :
        {name : String} {names : List String} {d : Dispatch engine} {ds : List (Dispatch engine)}
        → Wanted ctx route_name in_ name d
        → Follows ctx route_name in_ names ds
        → Follows ctx route_name in_ (name ∷ names) (d ∷ ds)
    passed :
        {name : String} {names : List String} {ds : List (Dispatch engine)}
        → ((d : Dispatch engine) → ¬ Wanted ctx route_name in_ name d)
        → Follows ctx route_name in_ names ds
        → Follows ctx route_name in_ (name ∷ names) ds

  no_template :
      (ctx : Router engine) (route_name in_ name : String) (r : InputRoute)
      → lookup route_name ctx.input_routes ≡ some r
      → lookup r.template ctx.templates ≡ none
      → (d : Dispatch engine) → ¬ Wanted ctx route_name in_ name d
  no_template ctx route_name in_ name r e g d w =
      let f = w.from in
      let same : d.route ≡ r = cc in
      let b =
        subst (λ (x : InputRoute). lookup x.template ctx.templates ≡ some d.template) same w.by in
      cc

  dispatch_all-Follows :
      (ctx : Router engine) (route_name in_ : String) (r : InputRoute) (names : List String)
      → lookup route_name ctx.input_routes ≡ some r
      → Follows ctx route_name in_ names (dispatch_all ctx in_ r names)
  unfolding dispatch_all dispatch_to
  dispatch_all-Follows ctx route_name in_ r [] e = finished
  dispatch_all-Follows ctx route_name in_ r (name ∷ names) e =
      let rest = dispatch_all-Follows ctx route_name in_ r names e in
      elim (Option-cases (lookup name ctx.outputs)) [
        | inl f ↦ rw f (passed (λ d w. let g = w.to in cc) rest)
        | inr (o, f) ↦ elim (Option-cases (lookup r.template ctx.templates)) [
          | inl g ↦ rw f (rw g (passed (no_template ctx route_name in_ name r e g) rest))
          | inr (t, g) ↦ rw f (
              rw g (sent (record { from = e; to = f; by = g; carries = refl; server = refl }) rest))
        ]
      ]

  -- HandleRoute starts one goroutine for each output of the route that is enabled, in the order of the
  -- configuration, with the route's template, the router's server and the message; none where the
  -- route's template is missing, or for an output that is not enabled.
  pub handle_route-Follows :
      (ctx : Router engine) (route_name in_ : String) (r : InputRoute)
      → lookup route_name ctx.input_routes ≡ some r
      → Follows ctx route_name in_ r.outputs (handle_route ctx route_name in_)
  unfolding handle_route
  handle_route-Follows ctx route_name in_ r e =
      rw (e, handle_route) (dispatch_all-Follows ctx route_name in_ r r.outputs e)
