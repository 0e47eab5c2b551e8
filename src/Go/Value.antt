-- ===== src/Go/Value.antt =====
-- Decoded YAML and JSON: Go's `interface{}` with its type assertions. A map is the list of its
-- entries in the order that `range` visits them; the keys of a Go map are distinct.
pub mod Order
use wireops.Prelude.{Bool, Option, none, some, List, [], ◌∷◌, if◌then◌else◌}
use wireops.Go.Text.{Text, text_eq}

mutual
  pub data Value : Type 0 where
    nil : Value
    bool : Bool → Value
    num : Text → Value
    str : Text → Value
    arr : Items → Value
    obj : Fields → Value

  pub data Items : Type 0 where
    no_items : Items
    item : Value → Items → Items

  pub data Fields : Type 0 where
    no_fields : Fields
    field : Text → Value → Fields → Fields

abbrev pub Map : Type 0
Map = List (Text × Value)

abbrev pub items : Items → List Value
items no_items = []
items (item v vs) = v ∷ items vs

abbrev pub entries : Fields → Map
entries no_fields = []
entries (field k v fs) = (k, v) ∷ entries fs

-- The type assertions `v.(map[string]interface{})`, `v.([]interface{})`, `v.(string)`, `v.(bool)`.
abbrev pub as_map : Value → Option Map
as_map (obj fs) = some (entries fs)
as_map nil = none
as_map (bool b) = none
as_map (num n) = none
as_map (str s) = none
as_map (arr vs) = none

abbrev pub as_list : Value → Option (List Value)
as_list (arr vs) = some (items vs)
as_list nil = none
as_list (bool b) = none
as_list (num n) = none
as_list (str s) = none
as_list (obj fs) = none

abbrev pub as_string : Value → Option Text
as_string (str s) = some s
as_string nil = none
as_string (bool b) = none
as_string (num n) = none
as_string (arr vs) = none
as_string (obj fs) = none

abbrev pub as_bool : Value → Option Bool
as_bool (bool b) = some b
as_bool nil = none
as_bool (num n) = none
as_bool (str s) = none
as_bool (arr vs) = none
as_bool (obj fs) = none

-- `m[key]`: the zero value of an interface, nil, where the key is missing.
unfoldable pub at : Map → Text → Value
at [] k = nil
at ((j, v) ∷ m) k = if text_eq j k then v else at m k

-- The keys, in the order of `range`.
abbrev pub keys {ℓ} : {V : Type ℓ} → List (Text × V) → List Text
keys [] = []
keys ((k, v) ∷ m) = k ∷ keys m

-- `value, ok := m[key]` of a map of another value type.
unfoldable pub lookup {ℓ} : {V : Type ℓ} → List (Text × V) → Text → Option V
lookup [] k = none
lookup ((j, v) ∷ m) k = if text_eq j k then some v else lookup m k
