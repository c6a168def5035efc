-- ===== src/Tools/Validation.antt =====
-- tools/validation.go: validators of tool arguments and the lightweight check against a schema.
-- What `fmt` prints of a value, by `%v`, `%T` and `%d`, is a parameter.
pub mod Schema
pub mod JsonSchema
pub mod Laws
pub mod Generated
pub mod Structs
mod Tests
use deepagent.Base.{
  ℕ, Bool, true, false, ◌||◌, ◌&&◌, not, Option, none, some, List, [], ◌∷◌, ◌++◌, ltb,
  if◌then◌else◌, any,
}
use deepagent.Base.Text.{Str, lit, len, is_empty, str_eq}
use deepagent.Tools.Value.{
  Value, nil, string, boolean, float64, int, int32, int64, float32, array, object, Args, arg,
}
use deepagent.Agent.Types.{Result, err}
use deepagent.Agent.Graph.{Tool}

-- What a validator does with the arguments: nil, an error, or a panic.
pub data Verdict : Type 0 where
  accepted panics : Verdict
  refused : Str → Verdict

abbrev pub Validator : Type 0
Validator = Args → Verdict

pub record Fmt : Type 0 where
  pub sprint : Value → Str
  pub sprint_all : List Value → Str
  pub itoa : ℕ → Str
  pub type_name : Value → Str

-- the type switches
abbrev pub is_string : Value → Bool
is_string (string _) = true
is_string _ = false

abbrev pub is_number : Value → Bool
is_number (float64 _) = true
is_number (int _) = true
is_number (int32 _) = true
is_number (int64 _) = true
is_number (float32 _) = true
is_number _ = false

abbrev pub is_boolean : Value → Bool
is_boolean (boolean _) = true
is_boolean _ = false

abbrev pub is_array : Value → Bool
is_array (array _) = true
is_array _ = false

abbrev pub is_object : Value → Bool
is_object (object _) = true
is_object _ = false

abbrev pub is_nil : Value → Bool
is_nil nil = true
is_nil _ = false

-- absent, or equal to the empty string
abbrev pub is_missing : Option Value → Bool
is_missing none = true
is_missing (some (string s)) = is_empty s
is_missing (some _) = false

-- a check that applies only if the argument exists
abbrev pub optional : Option Value → (Value → Verdict) → Verdict
optional none check = accepted
optional (some val) check = check val

module _ (f : Fmt) where
  unfoldable pub validate_required : List Str → Validator
  validate_required [] args = accepted
  validate_required (key ∷ keys) args =
      let rest = validate_required keys args in
      if is_missing (arg args key)
      then refused (lit "missing required parameter: " ++ key)
      else rest

  -- the error of a value that is not of the type
  abbrev type_error : Str → Str → Value → Verdict
  type_error key what val =
      refused
        (lit "parameter " ++ key ++ lit " must be " ++ what ++ lit ", got " ++ f.type_name val)

  -- the `switch` on the expected type; `reflect.TypeOf(nil).Kind()` panics
  unfoldable pub check_type : Str → Str → Value → Verdict
  check_type key expected val =
      if str_eq expected (lit "string")
      then (if is_string val then accepted else type_error key (lit "a string") val)
      else if str_eq expected (lit "number")
      then (if is_number val then accepted else type_error key (lit "a number") val)
      else if str_eq expected (lit "boolean")
      then (if is_boolean val then accepted else type_error key (lit "a boolean") val)
      else if str_eq expected (lit "array")
      then (if is_array val
          then accepted
          else if is_nil val
          then panics
          else type_error key (lit "an array") val)
      else if str_eq expected (lit "object")
      then (if is_object val then accepted else type_error key (lit "an object") val)
      else refused (lit "unknown type: " ++ expected)

  unfoldable pub validate_type : Str → Str → Validator
  unfolding check_type
  validate_type key expected args = optional (arg args key) (check_type key expected)

  abbrev out_of_bounds : Str → Str → ℕ → ℕ → Verdict
  out_of_bounds key what bound got = refused (
      lit "parameter "
      ++ key
      ++ lit " is "
      ++ what
      ++ f.itoa bound
      ++ lit ", got "
      ++ f.itoa got
      ++ lit ")")

  unfoldable pub check_length : Str → ℕ → ℕ → Value → Verdict
  check_length key min_len max_len (string s) =
      if ltb (len s) min_len
      then out_of_bounds key (lit "too short (min ") min_len (len s)
      else if ltb 0 max_len && ltb max_len (len s)
      then out_of_bounds key (lit "too long (max ") max_len (len s)
      else accepted
  check_length key min_len max_len _ = refused (lit "parameter " ++ key ++ lit " must be a string")

  unfoldable pub validate_length : Str → ℕ → ℕ → Validator
  unfolding check_length
  validate_length key min_len max_len args =
      optional (arg args key) (check_length key min_len max_len)

  -- the values are compared as they print
  unfoldable pub check_enum : Str → List Value → Value → Verdict
  check_enum key values val =
      if any (λ v. str_eq (f.sprint val) (f.sprint v)) values
      then accepted
      else refused (
          lit "parameter "
          ++ key
          ++ lit " has invalid value "
          ++ f.sprint val
          ++ lit " (allowed: "
          ++ f.sprint_all values
          ++ lit ")")

  unfoldable pub validate_enum : Str → List Value → Validator
  unfolding check_enum
  validate_enum key values args = optional (arg args key) (check_enum key values)

-- what follows a validator's verdict
abbrev pub and_then : Verdict → Verdict → Verdict
and_then accepted later = later
and_then (refused e) later = refused e
and_then panics later = panics

unfoldable pub chain_validators : List Validator → Validator
chain_validators [] args = accepted
chain_validators (v ∷ vs) args = and_then (v args) (chain_validators vs args)

-- `WrappedTool.Call`: the result and the world, or `none` if the validator panics.
abbrev pub guard_call : {W : Type 0} → Verdict → Result Value × W → W → Option (Result Value × W)
guard_call accepted called w = some called
guard_call (refused e) called w = some (err e, w)
guard_call panics called w = none

unfoldable pub wrapped_call :
    {W : Type 0} → Tool W → Option Validator → Args → W → Option (Result Value × W)
wrapped_call tool none args w = some (tool.call args w)
wrapped_call tool (some validators) args w = guard_call (validators args) (tool.call args w) w
