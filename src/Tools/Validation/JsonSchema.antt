-- ===== src/Tools/Validation/JsonSchema.antt =====
-- tools/jsonschema_validator.go and its stub: the check against a full JSON schema in a build with the
-- tag `jsonschema`. The library is a record of functions.
use deepagent.Base.{Option, none, some, ◌++◌}
use deepagent.Base.Text.{Str, lit}
use deepagent.Tools.Value.{Fields, Args}
use deepagent.Agent.Types.{Result, ok, err}
use deepagent.Tools.Validation.Schema.{validate_against_schema}

-- `json.Marshal` of the schema, and the compiler with `AddResource`, `Compile` and `Validate`.
pub record Library (S : Type 0) : Type 0 where
  pub marshal : Fields → Result Str
  pub add_resource : Str → Str → Option Str
  pub compile : Str → Str → Result S
  pub validate : S → Args → Option Str

abbrev pub schema_name : Str
schema_name = lit "__tool_schema.json"

module _ {S : Type 0} (library : Library S) where
  abbrev pub judged : Option Str → Option Str
  judged none = none
  judged (some e) = some (lit "json schema validation error: " ++ e)

  abbrev pub with_schema : Args → Result S → Option Str
  with_schema args (err e) = some (lit "failed to compile json schema: " ++ e)
  with_schema args (ok sch) = judged (library.validate sch args)

  abbrev pub with_resource : Args → Str → Option Str → Option Str
  with_resource args text (some e) = some (lit "failed to add schema resource: " ++ e)
  with_resource args text none = with_schema args (library.compile schema_name text)

  abbrev pub with_text : Args → Result Str → Option Str
  with_text args (err e) = some (lit "failed to marshal schema: " ++ e)
  with_text args (ok text) = with_resource args text (library.add_resource schema_name text)

  -- `ValidateAgainstJSONSchema` in a build with the tag
  unfoldable pub validate_against_json_schema : Option Fields → Args → Option Str
  validate_against_json_schema none args = none
  validate_against_json_schema (some schema) args = with_text args (library.marshal schema)

-- and in a build without it
unfoldable pub validate_against_json_schema_stub : Option Fields → Args → Option Str
unfolding validate_against_schema
validate_against_json_schema_stub schema args = validate_against_schema schema args
