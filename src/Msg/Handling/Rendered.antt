-- ===== src/Msg/Handling/Rendered.antt =====
-- What a message makes an output receive, where the route does not collect messages.
use postee.Prelude.{
  String, Bool, true, false, ◌∷◌, ◌≡◌, ap, ◌∙◌, ◌⊎◌, inl, inr, refl, sym, Result, ok, err, Outcome,
  done, failed, panicked, Action, resume, ◌>>=◌, ◌&&◌,
}
use postee.Prelude.Int.{pos, ltb_ℤ}
use postee.Routes.{InputRoute}
use postee.Db.Bolt.{Bolt}
use postee.Db.Aggregator.{Content}
use postee.Msg.Value.{Decoded, nil_map, a_map, Fields, field, no_fields, obj, str, set_field}
use postee.Msg.World.{World, Inpteval, Services}
use postee.Msg.Handling.{
  application_scope_owners, with_owners, outcome, send, with_postee, deliver, process, match_then,
  decode_then, handle, msg_handling,
}
use postee.Msg.Handling.Sending.{IsQuiet, outcome-IsQuiet, remember-IsQuiet, with_postee-IsQuiet}

module _ {bolt : Bolt} (output : String) (P : Content → Type 0) where
  -- Nothing is handed over, or one content with the property.
  abbrev pub Hands : (w w' : World bolt) → Type 0
  Hands w w' = (w'.sent ≡ w.sent) ⊎ ((c : Content) × P c × (w'.sent ≡ (output, c) ∷ w.sent))

  pub record HandsOnly {A : Type 0} (m : Action (World bolt) A) : Type 0 where
    pub at : (w : World bolt) → Hands w (m w).1

  Hands-after : (w v w' : World bolt) → v.sent ≡ w.sent → Hands v w' → Hands w w'
  Hands-after w v w' e (inl f) = inl (f ∙ e)
  Hands-after w v w' e (inr (c, p, f)) = inr (c, p, f ∙ ap (λ l. (output, c) ∷ l) e)

  resume-Hands :
      {A B : Type 0} (o : Outcome A) (k : A → Action (World bolt) B) (w : World bolt)
      → ((a : A) → o ≡ done a → HandsOnly (k a))
      → Hands w (resume o k w).1
  resume-Hands (done a) k w h = (h a refl).at w
  resume-Hands (failed e) k w h = inl refl
  resume-Hands panicked k w h = inl refl

  -- After a call that hands over nothing, with what is known of its result.
  bind-HandsOnly :
      {A B : Type 0} (m : Action (World bolt) A) (k : A → Action (World bolt) B)
      → IsQuiet m
      → ((w : World bolt) (a : A) → (m w).0 ≡ done a → HandsOnly (k a))
      → HandsOnly (m >>= k)
  bind-HandsOnly m k q h = record {
    at = λ w.
        Hands-after w (m w).1 (resume (m w).0 k (m w).1).1 (q.at w)
          (resume-Hands (m w).0 k (m w).1 (h w));
  }

module _ {bolt : Bolt} (services : Services bolt) (output : String) (inpteval : Inpteval) where
  -- The content that the template makes of the message itself, with the owners that the message names.
  pub record IsRendered (input server : String) (c : Content) : Type 0 where
    pub fields : Fields
    pub reads : services.unmarshal input ≡ ok (a_map fields)
    pub owners : String
    pub owned : application_scope_owners (a_map fields) ≡ done owners
    pub content : Content
    pub evaluates :
        inpteval.eval
          (set_field "postee" (obj (field "AquaServer" (str server) no_fields)) fields)
          server
        ≡ done content
    pub made : c ≡ with_owners owners content

  -- The route collects no messages, neither up to a number nor for a time.
  pub record IsImmediate (route : InputRoute) : Type 0 where
    pub no_number :
        (ltb_ℤ (pos 0) route.plugins.aggregate_message_number && inpteval.is_aggregation_supported)
        ≡ false
    pub no_time :
        (ltb_ℤ (pos 0) route.plugins.aggregate_timeout_seconds && inpteval.is_aggregation_supported)
        ≡ false

  deliver-HandsOnly :
      (P : Content → Type 0) (route : InputRoute) (c : Content)
      → IsImmediate route
      → P c
      → HandsOnly output P (deliver services output inpteval route c)
  unfolding deliver send
  deliver-HandsOnly P route c i p = record {
    at = λ w. rw (i.no_number, i.no_time) (inr (c, p, refl));
  }

  with_postee-done :
      (decoded : Decoded) (server : String) (sent_fields : Fields) (w : World bolt)
      → (with_postee services decoded server w).0 ≡ done sent_fields
      → (fs : Fields) × (decoded ≡ a_map fs)
        × (set_field "postee" (obj (field "AquaServer" (str server) no_fields)) fs ≡ sent_fields)
  unfolding with_postee
  with_postee-done nil_map server sent_fields w e = absurd (cc)
  with_postee-done (a_map fs) server sent_fields w e = (fs, refl, cc)

  process-HandsOnly :
      (input server : String) (route : InputRoute) (decoded : Decoded)
      → services.unmarshal input ≡ ok decoded
      → IsImmediate route
      → HandsOnly output
          (IsRendered input server)
          (process services output inpteval input decoded route server)
  unfolding process
  process-HandsOnly input server route decoded u i =
      bind-HandsOnly output _ {A = String} (outcome services (application_scope_owners decoded)) _
        (outcome-IsQuiet services _)
        λ w1 owners o.
          bind-HandsOnly output _ _ _ (remember-IsQuiet services input decoded route) λ w2 t e.
            bind-HandsOnly output _ _ _ (with_postee-IsQuiet services decoded server)
              λ w3 sent_fields f.
                bind-HandsOnly output _ {A = Content}
                  (outcome services (inpteval.eval sent_fields server)) _
                  (outcome-IsQuiet services _)
                  λ w4 content v.
                    let (fs, d, s) = with_postee-done decoded server sent_fields w3 f in
                    deliver-HandsOnly _ route (with_owners owners content) i (record {
                      fields = fs;
                      reads = u ∙ ap ok d;
                      owners = owners;
                      owned = ap application_scope_owners (sym d) ∙ o;
                      content = content;
                      evaluates = ap (λ x. inpteval.eval x server) s ∙ v;
                      made = refl;
                    })

  match_then-HandsOnly :
      (P : Content → Type 0) (r : Result Bool) (m : Action (World bolt) (Unit {0}))
      → HandsOnly output P m
      → HandsOnly output P (match_then services output inpteval r m)
  unfolding match_then
  match_then-HandsOnly P (err e) m h = record { at = λ w. inl refl }
  match_then-HandsOnly P (ok false) m h = record { at = λ w. inl refl }
  match_then-HandsOnly P (ok true) m h = h

  decode_then-HandsOnly :
      (input server : String) (route : InputRoute) (r : Result Decoded)
      → services.unmarshal input ≡ r
      → IsImmediate route
      → HandsOnly output
          (IsRendered input server)
          (decode_then services output inpteval input route server r)
  unfolding decode_then
  decode_then-HandsOnly input server route (err e) u i = record { at = λ w. inl refl }
  decode_then-HandsOnly input server route (ok decoded) u i =
      match_then-HandsOnly _ _ _ (process-HandsOnly input server route decoded u i)

  -- By a route that collects no messages, an output receives nothing, or one content: the one that the
  -- template makes of this very message, with the server's URL put into it, and with the owners that the
  -- message names put in. This holds whatever the database, the criteria and the template answer.
  pub msg_handling-IsRendered :
      (input server : String) (w : World bolt)
      → IsImmediate w.route
      → ((msg_handling services output inpteval input server w).1.sent ≡ w.sent)
        ⊎ ((c : Content) × IsRendered input server c
            × ((msg_handling services output inpteval input server w).1.sent
                ≡ (output, c) ∷ w.sent))
  unfolding msg_handling handle
  msg_handling-IsRendered input server w i =
      (decode_then-HandsOnly input server w.route (services.unmarshal input) refl i).at w
