-- ===== src/Rego/Eval.antt =====
-- regoservice/eval.go and formatting/eval.go: what a template makes of a message and of a batch.
use Prim.Native.String.{◌++◌}
use postee.Prelude.{
  String, Bool, true, false, Option, none, some, List, [], ◌∷◌, Result, ok, err, Outcome, done,
  failed, panicked, value_of, if◌then◌else◌, ◌≡◌, sym, refl,
}
use postee.Db.Aggregator.{Content}
use postee.Msg.Value.{
  Value, null, bool, num, str, arr, maps, obj, Items, no_items, item, Maps, Fields, no_fields,
  field, get_field,
}

-- encoding/json and the engine: `expressions` are the values of the expressions of each result.
pub record Engine : Type 1 where
  pub Query : Type 0
  pub eval : Query → Value → Result (List (List Value))
  pub marshal : Value → Result String
  pub unmarshal_maps : String → Option Maps

pub record RegoEvaluator (engine : Engine) : Type 0 where
  pub prep_query : engine.Query
  pub aggr_query : Option engine.Query
  pub is_package_defined : Bool

-- The child that is not nil.
abbrev pub present : Option Value → Bool
present none = false
present (some null) = false
present (some _) = true

-- The first map below that has the key. The fields stand in the order in which this run of the loop
-- meets them; a value that is no map ends the search.
unfoldable pub get_first_element : Fields → String → Option Value
get_first_element no_fields key = none
get_first_element (field k (obj child) rest) key =
    let below = get_first_element child key in
    let later = get_first_element rest key in
    if present (get_field key child)
    then some (obj child)
    else elim below [ some v ↦ some v | none ↦ later ]
get_first_element (field k v rest) key = none

not_found : {v : Value} → none ≡ some v → ⊥
not_found e = cc

found_lem :
    (child : Fields) (key : String) (b : Bool) (o later : Option Value) (v : Value)
    → b ≡ present (get_field key child)
    → ((u : Value) → o ≡ some u → (c : Fields) × (u ≡ obj c) × (present (get_field key c) ≡ true))
    → ((u : Value)
        → later ≡ some u
        → (c : Fields) × (u ≡ obj c) × (present (get_field key c) ≡ true))
    → (if b then some (obj child) else elim o [ some u ↦ some u | none ↦ later ]) ≡ some v
    → (c : Fields) × (v ≡ obj c) × (present (get_field key c) ≡ true)
found_lem child key true o later v p h k e = (child, cc, sym p)
found_lem child key false none later v p h k e = k v e
found_lem child key false (some u) later v p h k e = h v e

-- What the search finds is a map in which the key is present.
pub get_first_element_lem :
    (fs : Fields) (key : String) (v : Value)
    → get_first_element fs key ≡ some v
    → (child : Fields) × (v ≡ obj child) × (present (get_field key child) ≡ true)
unfolding get_first_element
get_first_element_lem no_fields key v e = absurd (not_found e)
get_first_element_lem (field k (obj child) rest) key v e =
    found_lem child key (present (get_field key child)) (get_first_element child key)
      (get_first_element rest key) v refl (get_first_element_lem child key)
      (get_first_element_lem rest key) e
get_first_element_lem (field k null rest) key v e = absurd (not_found e)
get_first_element_lem (field k (bool b) rest) key v e = absurd (not_found e)
get_first_element_lem (field k (num n) rest) key v e = absurd (not_found e)
get_first_element_lem (field k (str s) rest) key v e = absurd (not_found e)
get_first_element_lem (field k (arr l) rest) key v e = absurd (not_found e)
get_first_element_lem (field k (maps l) rest) key v e = absurd (not_found e)

-- `v.(map[string]interface{})`
abbrev pub as_map : Value → Outcome Fields
as_map (obj fs) = done fs
as_map _ = panicked

module _ (engine : Engine) where
  abbrev text_or_json : Option Value → String → Result String
  text_or_json none prop = err ("property " ++ (prop ++ " is not found"))
  text_or_json (some (str s)) prop = ok s
  text_or_json (some v) prop = engine.marshal v

  unfoldable pub as_string_or_json : Fields → String → Result String
  as_string_or_json fs prop = text_or_json (get_field prop fs) prop

  -- The value of the first expression of the first result.
  abbrev pub first_value : Result (List (List Value)) → Result Value
  first_value (err e) = err e
  first_value (ok ((v ∷ vs) ∷ rs)) = ok v
  first_value (ok _) = err "no results"

  abbrev described : Result String → Result String → List (String × String) → Outcome Content
  described (err e) _ more = failed e
  described (ok title) (err e) more = failed e
  described (ok title) (ok description) more =
      done (("title", title) ∷ ("description", description) ∷ more)

  abbrev described_by : Outcome Fields → List (String × String) → Outcome Content
  described_by (done fs) more =
      described (as_string_or_json fs "title") (as_string_or_json fs "result") more
  described_by (failed e) more = failed e
  described_by panicked more = panicked

  abbrev found_map : Option Value → Outcome Fields
  found_map none = failed "invalid rego template structure"
  found_map (some v) = as_map v

  abbrev package_of : Bool → Value → Outcome Fields
  package_of true v = as_map v
  package_of false (obj fs) = found_map (get_first_element fs "result")
  package_of false _ = panicked

  unfoldable pub eval : RegoEvaluator engine → Fields → String → Outcome Content
  unfolding as_string_or_json get_first_element
  eval e fs server_url = elim (first_value (engine.eval e.prep_query (obj fs))) [
    | err x ↦ failed x
    | ok v ↦ described_by (package_of e.is_package_defined v) (("url", server_url) ∷ [])
  ]

  abbrev description_of : String → Value
  description_of desc = elim (engine.unmarshal_maps desc) [ some ms ↦ maps ms | none ↦ str desc ]

  abbrev scan_item : Content → Value
  scan_item scan = obj (
      field "description" (description_of (value_of "description" scan))
        (field "title" (str (value_of "title" scan)) no_fields))

  append_items : List Content → Items
  append_items [] = no_items
  append_items (scan ∷ scans) = item (scan_item scan) (append_items scans)

  -- `make(_, len(scans), len(scans))` holds that many nil maps, and each item is appended after them.
  prepend_nils : List Content → Items → Items
  prepend_nils [] items = items
  prepend_nils (scan ∷ scans) items = item null (prepend_nils scans items)

  unfoldable pub aggregated_json : List Content → Items
  unfolding append_items prepend_nils
  aggregated_json scans = prepend_nils scans (append_items scans)

  -- A nil query cannot be evaluated.
  unfoldable pub build_aggregated_content : RegoEvaluator engine → List Content → Outcome Content
  unfolding as_string_or_json aggregated_json
  build_aggregated_content e scans = elim e.aggr_query [
    | none ↦ panicked
    | some query ↦ elim (first_value (engine.eval query (arr (aggregated_json scans)))) [
      | err x ↦ failed x
      | ok v ↦ described_by (as_map v) []
    ]
  ]

  unfoldable pub is_aggregation_supported : RegoEvaluator engine → Bool
  is_aggregation_supported e = elim e.aggr_query [ none ↦ false | some q ↦ true ]
