-- ===== src/System/Unique.antt =====
-- The goroutines of one message, where the route asks for unique messages.
use postee.Prelude.{String, false, some, List, ◌≡◌, ok, Result, done, All, subst, is_empty, lookup}
use postee.Data.{SlackBlock}
use postee.Routes.{InputRoute}
use postee.Db.Bolt.{Bolt, BoltLaws}
use postee.Rego.Eval.{Engine}
use postee.Layout.Legacy.{LegacyServices}
use postee.Msg.Value.{Decoded, fields_of}
use postee.Msg.UniqueKey.{get_message_unique_id}
use postee.Msg.World.{Services}
use postee.Router.State.{Router}
use postee.Router.Dispatch.{
  Dispatch, Follows, finished, sent, passed, handle_route, handle_route-Follows,
}
use postee.System.{Shared, Schedule, run_all}
use postee.System.Delivered.{Schedule-All}
use postee.System.Once.{AtMostOne, Keyed, run_all-once}

module _ {engine : Engine} {bolt : Bolt} (legacy_services : LegacyServices)
    (marshal : SlackBlock → Result String) (services : Services bolt) where
  module _ (laws : BoltLaws bolt) (key : String) where
    Follows-Keyed :
        (ctx : Router engine) (route_name in_ : String) (r : InputRoute) (decoded : Decoded)
        (names : List String) (ds : List (Dispatch engine))
        → lookup route_name ctx.input_routes ≡ some r
        → services.unmarshal in_ ≡ ok decoded
        → is_empty r.plugins.unique_message_props ≡ false
        → get_message_unique_id services.show (fields_of decoded) r.plugins.unique_message_props
          ≡ done key
        → Follows ctx route_name in_ names ds
        → All (Keyed legacy_services marshal services key) ds
    Follows-Keyed ctx route_name in_ r decoded _ _ e u a g finished = tt
    Follows-Keyed ctx route_name in_ r decoded _ _ e u a g (sent {d = d} w f) =
        let from = w.from in
        let same : r ≡ d.route = cc in
        (
          record {
            decoded = decoded;
            reads = rw (w.carries) u;
            asks =
                subst (λ (x : InputRoute). is_empty x.plugins.unique_message_props ≡ false) same a;
            names =
                subst
                  (λ (x : InputRoute).
                    get_message_unique_id services.show (fields_of decoded)
                      x.plugins.unique_message_props
                    ≡ done key)
                  same g;
          },
          Follows-Keyed ctx route_name in_ r decoded _ _ e u a g f,
        )
    Follows-Keyed ctx route_name in_ r decoded _ _ e u a g (passed n f) =
        Follows-Keyed ctx route_name in_ r decoded _ _ e u a g f

    -- A message of a route that asks for unique messages is handed to one of the route's outputs at most,
    -- however many outputs the route has and whatever order their goroutines take, with no check of the
    -- database between them.
    pub handle_route-single :
        (ctx : Router engine) (route_name in_ : String) (r : InputRoute) (decoded : Decoded)
        (order : List (Dispatch engine)) (s : Shared bolt)
        → lookup route_name ctx.input_routes ≡ some r
        → services.unmarshal in_ ≡ ok decoded
        → is_empty r.plugins.unique_message_props ≡ false
        → get_message_unique_id services.show (fields_of decoded) r.plugins.unique_message_props
          ≡ done key
        → Schedule (handle_route ctx route_name in_) order
        → AtMostOne s.sent (run_all legacy_services marshal services order s).1.sent
    handle_route-single ctx route_name in_ r decoded order s e u a g p =
        run_all-once legacy_services marshal services laws key order s (
          Schedule-All (Keyed legacy_services marshal services key) p (
            Follows-Keyed ctx route_name in_ r decoded _ _ e u a g
              (handle_route-Follows ctx route_name in_ r e)))
