-- ===== src/Rego/JsonFormat.antt =====
-- regoservice/jsonformat.go: the function `jsonformat` that the templates may call.
use postee.Prelude.{String, Result, ok, err}
use postee.Msg.Value.{Fields}

-- What is called of the OPA engine, for its terms, and of encoding/json.
pub record TermServices : Type 1 where
  pub Term : Type 0
  -- ast.As of the term's value, into a map
  pub as_object : Term → Result Fields
  pub string_term : String → Term
  -- json.MarshalIndent with the indent of one space
  pub marshal_indent : Fields → Result String

module _ (services : TermServices) where
  open services use {Term, as_object, string_term, marshal_indent}

  abbrev formatted : Result String → Result Term
  formatted (err e) = err e
  formatted (ok text) = ok (string_term text)

  -- The builtin; the engine does not show its errors, which are logged.
  unfoldable pub json_fmt_func : Term → Result Term
  json_fmt_func a = elim (as_object a) [ err e ↦ err e | ok obj ↦ formatted (marshal_indent obj) ]
