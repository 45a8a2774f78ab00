-- ===== src/Workflow/Json.antt =====
-- `serde_json::Value` and `Map`, as far as the crate ez-workflow uses them.
-- A number is a `u64` or, when it is not, the text that prints it. A map is a `BTreeMap`, so its
-- entries stand in the order of their keys.
use enzarb.Base.{ℕ, Bool, true, false, Option, none, some, List, [], ◌∷◌, if◌then◌else◌}
use enzarb.Base.Text.{Str}
use enzarb.Base.Strings.{str_eq, str_lt}

mutual
  pub data Value : Type 0 where
    null : Value
    bool : Bool → Value
    number : ℕ → Value
    other_number : Str → Value
    string : Str → Value
    array : Items → Value
    object : Fields → Value

  pub data Items : Type 0 where
    no_items : Items
    item : Value → Items → Items

  pub data Fields : Type 0 where
    no_fields : Fields
    field : Str → Value → Fields → Fields

-- `Map::get`
unfoldable pub get_field : Str → Fields → Option Value
get_field k no_fields = none
get_field k (field j v fs) = if str_eq j k then some v else get_field k fs

-- `Map::insert`
unfoldable pub insert_field : Str → Value → Fields → Fields
insert_field k v no_fields = field k v no_fields
insert_field k v (field j w fs) =
    let rest = insert_field k v fs in
    if str_eq j k
    then field j v fs
    else if str_lt k j
    then field k v (field j w fs)
    else field j w rest

-- Inserts the fields of the first map, in their order, into the second.
unfoldable pub insert_all : Fields → Fields → Fields
insert_all no_fields m = m
insert_all (field k v fs) m = insert_all fs (insert_field k v m)

-- Collects pairs into a map.
unfoldable pub collect : List (Str × Value) → Fields → Fields
collect [] m = m
collect (e ∷ es) m = collect es (insert_field e.0 e.1 m)

-- `json!({ … })`
abbrev pub object_of : List (Str × Value) → Value
object_of es = object (collect es no_fields)

-- `Value::get` with a key
unfoldable pub get : Value → Str → Option Value
get (object m) k = get_field k m
get v k = none

unfoldable pub is_object : Value → Bool
is_object (object m) = true
is_object v = false

unfoldable pub is_null : Value → Bool
is_null null = true
is_null v = false

-- `is_boolean() || is_number() || is_string()`
unfoldable pub is_scalar : Value → Bool
is_scalar (bool b) = true
is_scalar (number n) = true
is_scalar (other_number s) = true
is_scalar (string s) = true
is_scalar v = false

unfoldable pub as_u64 : Value → Option ℕ
as_u64 (number n) = some n
as_u64 v = none

unfoldable pub as_str : Value → Option Str
as_str (string s) = some s
as_str v = none

-- `Option<String>` as JSON
abbrev pub string_or_null : Option Str → Value
string_or_null none = null
string_or_null (some s) = string s

-- A list of strings as JSON
unfoldable pub strings : List Str → Items
strings [] = no_items
strings (s ∷ rest) = item (string s) (strings rest)
