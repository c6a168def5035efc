-- ===== src/Tools/Validation/Tests.antt =====
-- A small schema and a small tool, and the theorems about validation at them.
use deepagent.Base.{ℕ, suc, ◌≡◌, ◌≢◌, ◌⊎◌, ◌↔◌, refl, true, none, some, List, [], ◌∷◌, All}
use deepagent.Base.Text.{Str, lit, str_eq}
use deepagent.Llms.GoType
use deepagent.Llms.GoType.{GoFields, string_kind}
use deepagent.Llms.Schema.{generate_parameters_schema, generate_struct_schema}
use deepagent.Tools.Value.{
  Value, nil, string, array, object, struct, no_value, value, Fields, no_field, field, get, set,
  Args, arg, as_string,
}
use deepagent.Agent.Types.{ok, err}
use deepagent.Agent.Graph.{Tool}
use deepagent.Tools.Validation.{
  Verdict, accepted, Validator, Fmt, validate_required, validate_type, chain_validators,
  wrapped_call,
}
use deepagent.Tools.Validation.Schema.{
  required_of, properties_of, has_object_type, check_required, check_properties,
  validate_against_schema,
}
use deepagent.Tools.Validation.Structs.{FitsStruct, generated-FitsStruct}
use deepagent.Tools.Validation.JsonSchema.{validate_against_json_schema}
use deepagent.Tools.Validation.Laws.{
  TypedArgs, Decides, Stops, Answers, validate_against_schema-Conforms, validate_type-Verdict,
  wrapped_call-Guarded,
}

abbrev printer : Fmt
printer = record {
  sprint = λ v. [];
  sprint_all = λ vs. [];
  itoa = λ n. n ∷ [];
  type_name = λ v. [];
}

abbrev properties : Fields
properties =
    field (lit "path") (object (field (lit "type") (string (lit "string")) no_field)) no_field

abbrev schema : Fields
schema = field (lit "type") (string (lit "object")) (
    field (lit "properties") (object properties)
      (field (lit "required") (array (value (string (lit "path")) no_value)) no_field))

abbrev call_args : Args
call_args = some (field (lit "path") (string (lit "a.txt")) no_field)

missing : validate_against_schema (some schema) none ≡ some (lit "missing required parameter: path")
unfolding validate_against_schema required_of check_required get str_eq
missing = refl

present : validate_against_schema (some schema) call_args ≡ none
unfolding validate_against_schema required_of check_required check_properties get str_eq
present = refl

schema-is_object : has_object_type (as_string (get schema (lit "type"))) ≡ true
unfolding get str_eq
schema-is_object = refl

validate_against_schema-Conforms_example :
    All (λ name. arg call_args name ≢ none) (required_of schema)
    × TypedArgs (properties_of (get schema (lit "properties"))) call_args
validate_against_schema-Conforms_example =
    validate_against_schema-Conforms schema call_args schema-is_object present

abbrev path_params : GoFields
path_params = GoType.field (lit "path") (lit "true") string_kind GoType.no_field

-- A call without arguments passes, and so does a text; a number does not.
abbrev number_args : Args
number_args = some (field (lit "path") (Value.float64 1) no_field)

number-refused :
    validate_against_schema (some (generate_parameters_schema (struct path_params))) number_args
    ≡ some (lit "parameter path must be a string")
unfolding validate_against_schema generate_parameters_schema generate_struct_schema get set str_eq
number-refused = refl

generated-FitsStruct_example :
    (validate_against_schema (some (generate_parameters_schema (struct path_params))) call_args
      ≡ none)
    ↔ FitsStruct path_params call_args
unfolding str_eq
generated-FitsStruct_example = generated-FitsStruct path_params call_args refl

validate_type-Verdict_example :
    ((arg call_args (lit "path") ≡ none)
      × (validate_type printer (lit "path") (lit "string") call_args ≡ accepted))
    ⊎ ((val : Value) × (arg call_args (lit "path") ≡ some val)
        × Decides printer
            (lit "string")
            val
            (validate_type printer (lit "path") (lit "string") call_args))
validate_type-Verdict_example = validate_type-Verdict printer (lit "path") (lit "string") call_args

abbrev counter : Tool ℕ
counter = record {
  name = lit "count";
  description = [];
  parameters = nil;
  call = λ args w. (ok nil, suc w);
}

abbrev two_validators : List Validator
two_validators =
    validate_required printer (lit "path" ∷ [])
    ∷ validate_type printer (lit "path") (lit "string")
    ∷ []

wrapped_call-Guarded_example :
    (All (λ (v : Validator). v call_args ≡ accepted) two_validators
      × (wrapped_call counter (some (chain_validators two_validators)) call_args 3
          ≡ some (ok nil, 4)))
    ⊎ ((verdict : Verdict) × Stops two_validators call_args verdict
        × Answers verdict 3
            (wrapped_call counter (some (chain_validators two_validators)) call_args 3))
wrapped_call-Guarded_example = wrapped_call-Guarded counter two_validators call_args 3

-- A schema that does not compile refuses every call.
not_compiled :
    validate_against_json_schema
      (record {
        marshal = λ fs. ok (lit "{}");
        add_resource = λ name text. none;
        compile = λ name text. err (lit "bad");
        validate = λ (s : Str) args. none;
      })
      (some no_field)
      none
    ≡ some (lit "failed to compile json schema: bad")
unfolding validate_against_json_schema
not_compiled = refl
