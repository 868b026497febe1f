-- ===== src/Rego/Tests.antt =====
-- The criteria of a route with an engine that allows everything, and a batch of one scan.
use postee.Prelude.{String, true, none, some, [], ◌∷◌, ok, ◌≡◌, refl, value_of}
use postee.Msg.Value.{bool, nil_map, null, str, obj, item, no_items, field, no_fields}
use postee.Rego.Criteria.{Criteria, Loaded, is_used_rego_files, does_match_rego_criteria}
use postee.Rego.Eval.{Engine, aggregated_json}

abbrev allowing : Criteria
allowing = record {
  Query = Loaded;
  prepare = λ loaded. ok loaded;
  eval = λ query input. ok (some (bool true) ∷ []);
  rego_filters_path = "";
  join_path = λ a b. b;
}

criteria_are_met : does_match_rego_criteria allowing nil_map [] "rule" ≡ ok true
unfolding does_match_rego_criteria is_used_rego_files
criteria_are_met = refl

abbrev engine : Engine
engine = record {
  Query = String;
  eval = λ query input. ok [];
  marshal = λ v. ok "";
  unmarshal_maps = λ text. none;
}

-- A null stands before the only scan.
one_scan_of_two :
    aggregated_json engine ((("title", "scan") ∷ ("description", "text") ∷ []) ∷ [])
    ≡ item null (
        item
          (obj (field "description" (str "text") (field "title" (str "scan") no_fields)))
          no_items)
unfolding aggregated_json value_of
one_scan_of_two = refl
