-- ===== src/Msg/UniqueKey.antt =====
-- msgservice/uniquemsgkey.go: the key by which a message is recognised.
pub mod Paths
use postee.Prelude.{
  String, Bool, Option, none, some, List, [], ◌∷◌, Outcome, done, failed, panicked, ◌==◌,
  if◌then◌else◌,
}
use postee.Prelude.Text.{split, join}
use postee.Msg.Value.{
  Value, null, bool, num, str, arr, maps, obj, no_maps, one_map, Fields, get_field, Decoded,
  fields_of,
}

-- The map in which the path goes on: the value itself, or the first of a list of maps.
abbrev pub descend : Value → Option Fields
descend (obj fs) = some fs
descend (maps (one_map fs rest)) = some fs
descend _ = none

-- `show` stands for `fmt.Sprintf("%v", _)`.
module _ (show : Value → String) where
  -- The source asserts that its argument is a map; the calls below pass one.
  unfoldable pub get_single_value : Fields → List String → Outcome String
  get_single_value o [] = panicked
  get_single_value o (part ∷ []) = elim (get_field part o) [
    | none ↦ done ""
    | some v ↦ done (show v)
  ]
  get_single_value o (part ∷ next ∷ parts) = elim (get_field part o) [
    | none ↦ done ""
    | some v ↦ elim (descend v) [ none ↦ done "" | some fs ↦ get_single_value fs (next ∷ parts) ]
  ]

  abbrev pub add_value : Outcome String → Outcome (List String) → Outcome (List String)
  add_value (done v) (done rest) = done (if v == "" then rest else v ∷ rest)
  add_value (done v) (failed e) = failed e
  add_value (done v) panicked = panicked
  add_value (failed e) _ = failed e
  add_value panicked _ = panicked

  unfoldable pub values_of : Fields → List String → Outcome (List String)
  values_of o [] = done []
  values_of o (prop ∷ props) = add_value (get_single_value o (split prop b'.')) (values_of o props)

  abbrev joined : Outcome (List String) → Outcome String
  joined (done values) = done (join values "-")
  joined (failed e) = failed e
  joined panicked = panicked

  unfoldable pub get_message_unique_id : Fields → List String → Outcome String
  unfolding values_of get_single_value
  get_message_unique_id o props = joined (values_of o props)
