-- ===== src/Msg/Value.antt =====
-- The dynamic values of a decoded JSON message, as the type switches of the source tell them apart.
use postee.Prelude.{String, Bool, Option, none, some, ◌==◌, if◌then◌else◌}

-- A number is kept as its literal text. `maps` is a `[]map[string]interface{}`, which encoding/json
-- never makes: an array that it decodes is an `arr`.
mutual
  pub data Value : Type 0 where
    null : Value
    bool : Bool → Value
    num : String → Value
    str : String → Value
    arr : Items → Value
    maps : Maps → Value
    obj : Fields → Value

  pub data Items : Type 0 where
    no_items : Items
    item : Value → Items → Items

  pub data Maps : Type 0 where
    no_maps : Maps
    one_map : Fields → Maps → Maps

  pub data Fields : Type 0 where
    no_fields : Fields
    field : String → Value → Fields → Fields

-- v, ok := in[key]
unfoldable pub get_field : String → Fields → Option Value
get_field key no_fields = none
get_field key (field k v rest) = if k == key then some v else get_field key rest

-- in[key] = v
unfoldable pub set_field : String → Value → Fields → Fields
set_field key v no_fields = field key v no_fields
set_field key v (field k w rest) =
    let later = set_field key v rest in if k == key then field key v rest else field k w later

-- What `json.Unmarshal` leaves in a `map[string]interface{}`: the message `null` makes it nil.
pub data Decoded : Type 0 where
  nil_map : Decoded
  a_map : Fields → Decoded

abbrev pub fields_of : Decoded → Fields
fields_of nil_map = no_fields
fields_of (a_map fs) = fs
