-- ===== src/Llms/Schema.antt =====
-- llms/schema.go: JSON schemas from Go types and from a tool's parameters.
use deepagent.Base.{Bool, List, [], ◌∷◌, ◌||◌, ◌&&◌, not, if◌then◌else◌}
use deepagent.Base.Text.{Str, lit, str_eq, is_empty}
use deepagent.Llms.GoType
use deepagent.Llms.GoType.{
  GoType, GoFields, string_kind, number_kind, byte_kind, bool_kind, map_kind, other_kind,
  slice_kind, ptr_kind, struct_kind,
}
use deepagent.Tools.Value.{
  Value, nil, string, strings, object, struct, pointer, Fields, no_field, field, set,
}

-- `{"type": kind}`
abbrev pub of_type : Str → Fields
of_type kind = field (lit "type") (string kind) no_field

-- A struct field without a `json` tag, or with the tag "-", is left out.
unfoldable pub is_skipped : Str → Bool
is_skipped tag = str_eq tag (lit "-") || is_empty tag

-- the list `required` of `generateStructSchema`
unfoldable pub required_names : GoFields → List Str
unfolding is_skipped
required_names GoType.no_field = []
required_names (GoType.field json required t fs) =
    if not (is_skipped json) && (not (is_empty json) && str_eq required (lit "true"))
    then json ∷ required_names fs
    else required_names fs

-- the map `schema` of `generateStructSchema`, from the map `properties`
abbrev pub struct_schema : List Str → Fields → Fields
struct_schema [] properties =
    field (lit "type") (string (lit "object"))
      (field (lit "properties") (object properties) no_field)
struct_schema (r ∷ rs) properties = field (lit "type") (string (lit "object")) (
    field (lit "properties") (object properties)
      (field (lit "required") (strings (r ∷ rs)) no_field))

unfoldable mutual
  unfolding is_skipped required_names

  pub generate_property_schema : GoType → Fields
  generate_property_schema string_kind = of_type (lit "string")
  generate_property_schema number_kind = of_type (lit "number")
  generate_property_schema byte_kind = of_type (lit "number")
  generate_property_schema bool_kind = of_type (lit "boolean")
  generate_property_schema map_kind = of_type (lit "object")
  generate_property_schema other_kind = of_type (lit "object")
  generate_property_schema (slice_kind t) =
      field (lit "type") (string (lit "array"))
        (field (lit "items") (object (generate_property_schema t)) no_field)
  generate_property_schema (ptr_kind t) = generate_property_schema t
  generate_property_schema (struct_kind fs) =
      struct_schema (required_names fs) (properties_from no_field fs)

  -- the loop over the fields, with the map `properties`
  pub properties_from : Fields → GoFields → Fields
  properties_from props GoType.no_field = props
  properties_from props (GoType.field json required t fs) =
      properties_from
        (if is_skipped json then props else set props json (object (generate_property_schema t))) fs

unfoldable pub generate_struct_schema : GoFields → Fields
unfolding generate_property_schema properties_from required_names
generate_struct_schema fs = generate_property_schema (struct_kind fs)

abbrev pub empty_schema : Fields
empty_schema =
    field (lit "type") (string (lit "object")) (field (lit "properties") (object no_field) no_field)

-- `GenerateParametersSchema` on a tool's `Parameters`.
unfoldable pub generate_parameters_schema : Value → Fields
generate_parameters_schema nil = empty_schema
generate_parameters_schema (object fs) = fs
generate_parameters_schema (struct fs) = generate_struct_schema fs
generate_parameters_schema (pointer fs) = generate_struct_schema fs
generate_parameters_schema _ = empty_schema
