-- ===== src/Rego/Service.antt =====
-- regoservice as msgservice uses it: its evaluators and its criteria in the place of the parameters.
use postee.Prelude.{
  String, true, false, Option, some, List, ◌∷◌, ◌≡◌, ◌≢◌, ◌⊎◌, inl, inr, ap, subst, ok,
  Result-cases,
}
use postee.Db.Bolt.{Bolt}
use postee.Msg.Value.{Value, bool, Decoded}
use postee.Msg.World.{World, Inpteval, Services}
use postee.Msg.Handling.{msg_handling}
use postee.Msg.Handling.Delivery.{msg_handling-rejected}
use postee.Rego.Criteria.{
  Criteria, is_used_rego_files, build_rego_loader, does_match_rego_criteria,
  does_match_rego_criteria_lem,
}
use postee.Rego.Eval.{
  Engine, RegoEvaluator, eval, build_aggregated_content, is_aggregation_supported,
}

unfoldable pub inpteval_of : {engine : Engine} → RegoEvaluator engine → Inpteval
inpteval_of {engine} e = record {
  eval = eval engine e;
  build_aggregated_content = build_aggregated_content engine e;
  is_aggregation_supported = is_aggregation_supported engine e;
}

abbrev pub with_criteria : {bolt : Bolt} → Criteria → Services bolt → Services bolt
with_criteria criteria services = record services {
  does_match_rego_criteria = does_match_rego_criteria criteria;
}

module _ {bolt : Bolt} (criteria : Criteria) (services : Services bolt) (output : String)
    (inpteval : Inpteval) where
  -- A message is sent only where it is read, and the route has no criteria or the engine binds x of its
  -- first result to true on that message.
  pub msg_handling-allowed :
      (input server : String) (w : World bolt)
      → (msg_handling (with_criteria criteria services) output inpteval input server w).1.sent
        ≢ w.sent
      → (decoded : Decoded) × (services.unmarshal input ≡ ok decoded)
        × (((is_used_rego_files w.route.input_files ≡ false) × (w.route.input ≡ ""))
            ⊎ ((query : criteria.Query) × (rest : List (Option Value)) × (criteria.prepare
                    (build_rego_loader criteria w.route.input_files w.route.input)
                  ≡ ok query)
                × (criteria.eval query decoded ≡ ok (some (bool true) ∷ rest))))
  msg_handling-allowed input server w moved = elim (Result-cases (services.unmarshal input)) [
    | inr (e, u) ↦ absurd (moved (unsent λ decoded v. cc))
    | inl (decoded, u) ↦
        elim (Result-cases
          (does_match_rego_criteria criteria decoded w.route.input_files w.route.input)) [
            | inr (e, m) ↦ absurd (moved (unsent (refused decoded u (λ a. cc))))
            | inl (false, m) ↦ absurd (moved (unsent (refused decoded u (λ a. cc))))
            | inl (true, m) ↦ (
              decoded,
              u,
              does_match_rego_criteria_lem criteria decoded w.route.input_files w.route.input m,
            )
          ]
  ]
    where
      unsent :
          ((decoded : Decoded)
            → services.unmarshal input ≡ ok decoded
            → does_match_rego_criteria criteria decoded w.route.input_files w.route.input ≢ ok true)
          → (msg_handling (with_criteria criteria services) output inpteval input server w).1.sent
            ≡ w.sent
      unsent h =
          ap (λ r. r.1.sent)
            (msg_handling-rejected (with_criteria criteria services) output inpteval input server w
              h)

      refused :
          (decoded : Decoded)
          → services.unmarshal input ≡ ok decoded
          → (does_match_rego_criteria criteria decoded w.route.input_files w.route.input ≢ ok true)
          → (other : Decoded) → services.unmarshal input ≡ ok other
          → does_match_rego_criteria criteria other w.route.input_files w.route.input ≢ ok true
      refused decoded u n other v =
          let same : decoded ≡ other = cc in
          subst
            (λ (d : Decoded).
              does_match_rego_criteria criteria d w.route.input_files w.route.input ≢ ok true)
            same n
