-- ===== src/Tools/Value.antt =====
-- Values of Go's type `any`, by their dynamic type, as tool arguments and JSON schemas hold them.
use deepagent.Base.{ℕ, Option, none, some, Bool, List, if◌then◌else◌}
use deepagent.Base.Text.{Str, str_eq}
use deepagent.Llms.GoType.{GoFields}

-- A number is kept as its bit pattern. `other` is a value of any type that the program never tests
-- for, `struct` a struct value, and `pointer` a pointer to one. A
-- `map[string]any` is the list of its entries, in the order in which Go happens to visit it.
mutual
  pub data Value : Type 0 where
    nil : Value
    string : Str → Value
    boolean : Bool → Value
    float64 int int32 int64 float32 : ℕ → Value
    array : Values → Value
    strings : List Str → Value
    object : Fields → Value
    struct pointer : GoFields → Value
    other : ℕ → Value

  pub data Values : Type 0 where
    no_value : Values
    value : Value → Values → Values

  pub data Fields : Type 0 where
    no_field : Fields
    field : Str → Value → Fields → Fields

-- `m[key]` with its presence.
unfoldable pub get : Fields → Str → Option Value
get no_field key = none
get (field k v fs) key = if str_eq k key then some v else get fs key

-- `m[key] = v`
unfoldable pub set : Fields → Str → Value → Fields
set no_field key v = field key v no_field
set (field k w fs) key v = if str_eq k key then field key v fs else field k w (set fs key v)

-- The arguments of a tool call: `none` is the nil map, which reads as an empty one.
abbrev pub Args : Type 0
Args = Option Fields

abbrev pub arg : Args → Str → Option Value
arg none key = none
arg (some fs) key = get fs key

-- `v.(string)` and `v.(map[string]any)` on what a map lookup returned.
abbrev pub as_string : Option Value → Option Str
as_string (some (string s)) = some s
as_string _ = none

abbrev pub as_object : Option Value → Option Fields
as_object (some (object fs)) = some fs
as_object _ = none
