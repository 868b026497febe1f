-- ===== src/System/Delivered.antt =====
-- Who is handed a content after a message was taken from the queue.
use postee.Prelude.{
  Option-cases, sym, some, Dict, lookup, resume, String, List, [], ◌∷◌, ◌++◌, ◌≡◌, ◌⊎◌, inl, inr,
  Result, Outcome, done, failed, panicked, All, All-append, subst,
}
use postee.Prelude.Text.{replace_all}
use postee.Data.{SlackBlock}
use postee.Db.Bolt.{Bolt}
use postee.Db.Aggregator.{Content}
use postee.Outputs.Records.{get_name}
use postee.Rego.Eval.{Engine}
use postee.Layout.Legacy.{LegacyServices}
use postee.Msg.World.{Services}
use postee.Msg.Handling.Sending.{msg_handling-sent}
use postee.Router.State.{Router}
use postee.Router.Dispatch.{
  Dispatch, Wanted, Follows, finished, sent, passed, handle_route, handle_route-Follows,
  handle_names, handle, on_message,
}
use postee.System.{Shared, Schedule, idle, turn, run_dispatch, run_all, inpteval_for, enter}
use postee.Routes.{InputRoute}
use mathlib.Core.List.{Mem, mem-cons_self, mem-cons_of_mem}

-- Reads the goroutines beside the contents: each hands at most one content to its own output.
pub data Hands {engine : Engine}
    : List (Dispatch engine) → (before after : List (String × Content)) → Type 0 where
  over : {ds : List (Dispatch engine)} {l : List (String × Content)} → Hands ds l l
  nothing :
      {d : Dispatch engine} {ds : List (Dispatch engine)} {before after : List (String × Content)}
      → Hands ds before after
      → Hands (d ∷ ds) before after
  one :
      {d : Dispatch engine} {ds : List (Dispatch engine)} {before after : List (String × Content)}
      (c : Content)
      → Hands ds ((get_name d.output, c) ∷ before) after
      → Hands (d ∷ ds) before after

All-middle :
    {A : Type 0} (P : A → Type 0) (xs ys : List A) (a : A)
    → All P (xs ++ a ∷ ys)
    → P a × All P (xs ++ ys)
All-middle P [] ys a (p, h) = (p, h)
All-middle P (x ∷ xs) ys a (p, h) = let (q, k) = All-middle P xs ys a h in (q, (p, k))

-- What holds of each goroutine of the pool holds of each in any order.
pub Schedule-All :
    {A : Type 0} (P : A → Type 0) {pool order : List A}
    → Schedule pool order
    → All P pool
    → All P order
Schedule-All P idle h = tt
Schedule-All P (turn xs ys {a} s) h = let (p, k) = All-middle P xs ys a h in (p, Schedule-All P s k)

module _ {engine : Engine} where
  -- The goroutine is that of a route of the router, which has the message, and of an output that the
  -- route names and the router has.
  abbrev pub From : Router engine → String → Dispatch engine → Type 0
  From ctx in_ d =
      (route_name : String) × (name : String) × Wanted ctx route_name in_ name d
      × Mem name d.route.outputs

  Follows-From :
      (ctx : Router engine) (route_name in_ : String) (r : InputRoute) (names : List String)
      (ds : List (Dispatch engine))
      → lookup route_name ctx.input_routes ≡ some r
      → ((name : String) → Mem name names → Mem name r.outputs)
      → Follows ctx route_name in_ names ds
      → All (From ctx in_) ds
  Follows-From ctx route_name in_ r _ _ e m finished = tt
  Follows-From ctx route_name in_ r _ _ e m (sent {name} {names} {d} w f) =
      let g = w.from in
      let same : d.route ≡ r = cc in
      let named =
        subst (λ (x : InputRoute). Mem name x.outputs) (sym same) (m name mem-cons_self) in
      (
        (route_name, name, w, named),
        Follows-From ctx route_name in_ r names _ e (λ n h. m n (mem-cons_of_mem name h)) f,
      )
  Follows-From ctx route_name in_ r _ _ e m (passed {name} {names} n f) =
      Follows-From ctx route_name in_ r names _ e (λ j h. m j (mem-cons_of_mem name h)) f

  pub handle_route-From :
      (ctx : Router engine) (route_name in_ : String)
      → All (From ctx in_) (handle_route ctx route_name in_)
  unfolding handle_route
  handle_route-From ctx route_name in_ = elim (Option-cases (lookup route_name ctx.input_routes)) [
    | inl e ↦ rw (e, handle_route) tt
    | inr (r, e) ↦
        Follows-From ctx route_name in_ r r.outputs _ e (λ name h. h)
          (handle_route-Follows ctx route_name in_ r e)
  ]

  handle_names-From :
      (ctx : Router engine) (in_ : String) (routes : Dict InputRoute)
      → All (From ctx in_) (handle_names ctx in_ routes)
  unfolding handle_names
  handle_names-From ctx in_ [] = tt
  handle_names-From ctx in_ ((name, r) ∷ rest) =
      All-append (From ctx in_) _ _ (handle_route-From ctx name in_)
        (handle_names-From ctx in_ rest)

  pub on_message-From :
      (ctx : Router engine) (in_ : String)
      → All (From ctx (replace_all in_ b'`' "'")) (on_message ctx in_)
  unfolding on_message handle
  on_message-From ctx in_ = handle_names-From ctx _ ctx.input_routes

module _ {engine : Engine} {bolt : Bolt} (legacy_services : LegacyServices)
    (marshal : SlackBlock → Result String) (services : Services bolt) where
  abbrev rest_of :
      Outcome (Unit {0}) → List (Dispatch engine) → Shared bolt → List (String × Content)
  rest_of o ds s = (resume o (λ u. run_all legacy_services marshal services ds) s).1.sent

  first_hands :
      (d : Dispatch engine) (ds : List (Dispatch engine)) (s s' : Shared bolt)
      (after : List (String × Content))
      → (s'.sent ≡ s.sent) ⊎ ((c : Content) × (s'.sent ≡ (get_name d.output, c) ∷ s.sent))
      → Hands ds s'.sent after
      → Hands (d ∷ ds) s.sent after
  first_hands d ds s s' after (inl e) h = nothing (subst (λ l. Hands ds l after) e h)
  first_hands d ds s s' after (inr (c, e)) h = one c (subst (λ l. Hands ds l after) e h)

  rest-Hands :
      (o : Outcome (Unit {0})) (ds : List (Dispatch engine)) (s : Shared bolt)
      → Hands ds s.sent (run_all legacy_services marshal services ds s).1.sent
      → Hands ds s.sent (rest_of o ds s)
  rest-Hands (done u) ds s h = h
  rest-Hands (failed e) ds s h = over
  rest-Hands panicked ds s h = over

  run_all-Hands :
      (ds : List (Dispatch engine)) (s : Shared bolt)
      → Hands ds s.sent (run_all legacy_services marshal services ds s).1.sent
  unfolding run_all run_dispatch
  run_all-Hands [] s = over
  run_all-Hands (d ∷ ds) s =
      let r = run_dispatch legacy_services marshal services d s in
      first_hands d ds s r.1 (rest_of r.0 ds r.1)
        (msg_handling-sent services (get_name d.output)
          (inpteval_for legacy_services marshal services d.template) d.input d.aqua_server
          (enter legacy_services marshal services d s)).0
        (rest-Hands r.0 ds r.1 (run_all-Hands ds r.1))

  -- Whatever order the goroutines of a message take, each hands at most one content to its own output,
  -- which the router has and a route of it names, and reads the message with its backquotes replaced.
  pub on_message-Hands :
      (ctx : Router engine) (in_ : String) (order : List (Dispatch engine)) (s : Shared bolt)
      → Schedule (on_message ctx in_) order
      → All (From ctx (replace_all in_ b'`' "'")) order
        × Hands order s.sent (run_all legacy_services marshal services order s).1.sent
  unfolding on_message handle
  on_message-Hands ctx in_ order s p =
      (Schedule-All _ p (handle_names-From ctx _ ctx.input_routes), run_all-Hands order s)
