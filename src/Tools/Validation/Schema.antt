-- ===== src/Tools/Validation/Schema.antt =====
-- tools/validation.go: `ValidateAgainstSchema`, and how far it checks what schemas ask for. Which
-- of several faults is reported is a choice of Go's map order; here it is the first in the list.
use deepagent.Base.{Bool, true, false, ◌||◌, Option, none, some, List, [], ◌∷◌, ◌++◌, if◌then◌else◌}
use deepagent.Base.Text.{Str, lit, str_eq}
use deepagent.Tools.Value.{
  Value, string, array, object, Values, no_value, value, Fields, no_field, field, get, Args, arg,
  as_string,
}
use deepagent.Tools.Validation.{is_string, is_number, is_boolean, is_array, is_object}

-- the strings of a `[]any`
abbrev pub names_in : Values → List Str
names_in no_value = []
names_in (value (string s) vs) = s ∷ names_in vs
names_in (value _ vs) = names_in vs

abbrev pub as_names : Option Value → List Str
as_names (some (array vs)) = names_in vs
as_names _ = []

-- the required names that the code sees
unfoldable pub required_of : Fields → List Str
unfolding get
required_of schema = as_names (get schema (lit "required"))

unfoldable pub check_required : List Str → Args → Option Str
check_required [] args = none
check_required (name ∷ names) args =
    let rest = check_required names args in
    elim (arg args name) [
      | none ↦ some (lit "missing required parameter: " ++ name)
      | some _ ↦ rest
    ]

-- the `switch`: another type passes
unfoldable pub has_type : Option Str → Value → Bool
has_type none val = true
has_type (some expected) val =
    if str_eq expected (lit "string")
    then is_string val
    else if str_eq expected (lit "number")
    then is_number val
    else if str_eq expected (lit "boolean")
    then is_boolean val
    else if str_eq expected (lit "array")
    then is_array val
    else if str_eq expected (lit "object")
    then is_object val
    else true

abbrev article : Str → Str
article expected =
    if str_eq expected (lit "array") || str_eq expected (lit "object") then lit "an " else lit "a "

abbrev type_text : Option Str → Str
type_text none = []
type_text (some expected) = article expected ++ expected

-- one property that the arguments may hold
unfoldable pub check_property : Str → Value → Option Value → Option Str
unfolding has_type
check_property key (object prop) (some val) =
    if has_type (as_string (get prop (lit "type"))) val
    then none
    else some (
        lit "parameter " ++ key ++ lit " must be " ++ type_text (as_string (get prop (lit "type"))))
check_property key _ _ = none

abbrev pub first_error : Option Str → Option Str → Option Str
first_error (some e) later = some e
first_error none later = later

unfoldable pub check_properties : Fields → Args → Option Str
unfolding check_property
check_properties no_field args = none
check_properties (field key prop props) args =
    first_error (check_property key prop (arg args key)) (check_properties props args)

abbrev pub properties_of : Option Value → Fields
properties_of (some (object props)) = props
properties_of _ = no_field

abbrev pub has_object_type : Option Str → Bool
has_object_type none = false
has_object_type (some t) = str_eq t (lit "object")

-- `ValidateAgainstSchema` and, in a build without the tag, `ValidateAgainstJSONSchema`
unfoldable pub validate_against_schema : Option Fields → Args → Option Str
unfolding required_of check_required check_properties
validate_against_schema none args = none
validate_against_schema (some schema) args =
    if has_object_type (as_string (get schema (lit "type")))
    then first_error (check_required (required_of schema) args)
        (check_properties (properties_of (get schema (lit "properties"))) args)
    else none
