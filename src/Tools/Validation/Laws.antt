-- ===== src/Tools/Validation/Laws.antt =====
-- tools/validation.go: what the validators and the check against a schema guarantee.
use deepagent.Base.{
  ◌≡◌, ◌≢◌, ◌↔◌, ◌⊎◌, refl, sym, ap, subst, arith, inl, inr, ℕ, Bool, true, ◌||◌, Option, none,
  some, List, [], ◌∷◌, All, Bool-cases, Option-cases,
}
use deepagent.Base.Text.{Str, lit, str_eq, str_eq_iff}
use deepagent.Llms.GoType.{GoFields}
use deepagent.Llms.Schema.{
  generate_parameters_schema, generate_struct_schema, generate_property_schema, properties_from,
  required_names, struct_schema,
}
use deepagent.Tools.Value.{
  Value, nil, string, boolean, float64, int, int32, int64, float32, array, object, struct, Values,
  Fields, no_field, field, get, Args, arg, as_string,
}
use deepagent.Agent.Types.{Result, err}
use deepagent.Agent.Graph.{Tool}
use deepagent.Tools.Validation.{
  Verdict, accepted, refused, panics, Validator, Fmt, optional, is_nil, check_type, validate_type,
  and_then, chain_validators, guard_call, wrapped_call,
}
use deepagent.Tools.Validation.Schema.{
  required_of, check_required, has_type, check_property, first_error, check_properties,
  properties_of, has_object_type, validate_against_schema,
}

first_error-none : (a b : Option Str) → first_error a b ≡ none → (a ≡ none) × (b ≡ none)
first_error-none none b h = (refl, h)
first_error-none (some e) b h = cc

check_required-present :
    (names : List Str) (args : Args)
    → check_required names args ≡ none
    → All (λ name. arg args name ≢ none) names
unfolding check_required
check_required-present [] args h = tt
check_required-present (name ∷ names) args h =
    ((λ absent. ground (arith)), check_required-present names args (ground (arith)))

-- A property of the schema that the arguments hold has the type that it declares.
abbrev pub Conforms : Fields → Args → Type 0
Conforms props args =
    (key : Str) (prop : Fields) (val : Value)
    → get props key ≡ some (object prop)
    → arg args key ≡ some val
    → has_type (as_string (get prop (lit "type"))) val ≡ true

check_property-typed :
    (key : Str) (prop : Fields) (val : Value)
    → check_property key (object prop) (some val) ≡ none
    → has_type (as_string (get prop (lit "type"))) val ≡ true
unfolding check_property
check_property-typed key prop val h = ground arith

pub check_properties-Conforms :
    (props : Fields) (args : Args) → check_properties props args ≡ none → Conforms props args
unfolding check_properties get
check_properties-Conforms no_field args h key prop val e at = cc
check_properties-Conforms (field k p props) args h key prop val e at =
    let (this, others) =
      first_error-none (check_property k p (arg args k)) (check_properties props args) h in
    elim (Bool-cases (str_eq k key)) [
      | inl same ↦
          let at_k : arg args k ≡ some val =
            subst (λ n. arg args n ≡ some val) (sym ((str_eq_iff k key).0 same)) at in
          let is_prop : p ≡ object prop = ground (arith) in
          check_property-typed k prop val (
            subst (λ q. check_property k q (some val) ≡ none) is_prop
              (subst (λ o. check_property k p o ≡ none) at_k this))
      | inr other ↦ check_properties-Conforms props args others key prop val (rw other at e) at
    ]

-- A number of one of the Go types for numbers that are known: those of JSON are float64.
abbrev pub IsNumber : Value → Type 0
IsNumber val =
    (n : ℕ) × ((val ≡ float64 n)
      ⊎ ((val ≡ int n) ⊎ ((val ≡ int32 n) ⊎ ((val ≡ int64 n) ⊎ (val ≡ float32 n)))))

-- What the value is, where a type is declared that the check knows; a value of another type is not
-- checked.
abbrev pub Typed : Option Str → Value → Type 0
Typed none val = Unit
Typed (some t) val =
    (t ≡ lit "string" → (s : Str) × (val ≡ string s))
    × (t ≡ lit "number" → IsNumber val)
    × (t ≡ lit "boolean" → (b : Bool) × (val ≡ boolean b))
    × (t ≡ lit "array" → (vs : Values) × (val ≡ array vs))
    × (t ≡ lit "object" → (fs : Fields) × (val ≡ object fs))

has_type-IsNumber : (val : Value) → has_type (some (lit "number")) val ≡ true → IsNumber val
unfolding has_type str_eq
has_type-IsNumber (float64 n) h = (n, inl refl)
has_type-IsNumber (int n) h = (n, inr (inl refl))
has_type-IsNumber (int32 n) h = (n, inr (inr (inl refl)))
has_type-IsNumber (int64 n) h = (n, inr (inr (inr (inl refl))))
has_type-IsNumber (float32 n) h = (n, inr (inr (inr (inr refl))))
has_type-IsNumber val h = cc

has_type-string :
    (val : Value) → has_type (some (lit "string")) val ≡ true → (s : Str) × (val ≡ string s)
unfolding has_type str_eq
has_type-string (string s) h = (s, refl)
has_type-string val h = cc

has_type-boolean :
    (val : Value) → has_type (some (lit "boolean")) val ≡ true → (b : Bool) × (val ≡ boolean b)
unfolding has_type str_eq
has_type-boolean (boolean b) h = (b, refl)
has_type-boolean val h = cc

has_type-array :
    (val : Value) → has_type (some (lit "array")) val ≡ true → (vs : Values) × (val ≡ array vs)
unfolding has_type str_eq
has_type-array (array vs) h = (vs, refl)
has_type-array val h = cc

has_type-object :
    (val : Value) → has_type (some (lit "object")) val ≡ true → (fs : Fields) × (val ≡ object fs)
unfolding has_type str_eq
has_type-object (object fs) h = (fs, refl)
has_type-object val h = cc

has_type-Typed : (t : Option Str) (val : Value) → has_type t val ≡ true → Typed t val
has_type-Typed none val h = tt
has_type-Typed (some t) val h =
    let at : (u : Str) → t ≡ u → has_type (some u) val ≡ true =
      λ u e. subst (λ t. has_type (some t) val ≡ true) e h in
    (
      (λ e. has_type-string val (at (lit "string") e)),
      (λ e. has_type-IsNumber val (at (lit "number") e)),
      (λ e. has_type-boolean val (at (lit "boolean") e)),
      (λ e. has_type-array val (at (lit "array") e)),
      (λ e. has_type-object val (at (lit "object") e)),
    )

-- A property of the schema that the arguments hold is a value of the type that it declares.
abbrev pub TypedArgs : Fields → Args → Type 0
TypedArgs props args =
    (key : Str) (prop : Fields) (val : Value)
    → get props key ≡ some (object prop)
    → arg args key ≡ some val
    → Typed (as_string (get prop (lit "type"))) val

-- When the check against a schema of the type "object" passes, the arguments have every name of
-- its `required`, as far as that is a list of `any`, and each property that they hold, for which the
-- schema declares one of the types string, number, boolean, array and object, is a value of that
-- type.
pub validate_against_schema-Conforms :
    (schema : Fields) (args : Args)
    → has_object_type (as_string (get schema (lit "type"))) ≡ true
    → validate_against_schema (some schema) args ≡ none
    → All (λ name. arg args name ≢ none) (required_of schema)
      × TypedArgs (properties_of (get schema (lit "properties"))) args
unfolding validate_against_schema
validate_against_schema-Conforms schema args is_object h =
    let (present, typed) =
      first_error-none (check_required (required_of schema) args) _ (rw is_object at h) in
    (
      check_required-present (required_of schema) args present,
      (λ key prop val declared at.
          has_type-Typed _ val (check_properties-Conforms _ args typed key prop val declared at)),
    )

check_properties-nil : (props : Fields) → check_properties props none ≡ none
unfolding check_properties check_property
check_properties-nil no_field = refl
check_properties-nil (field key (object prop) props) = check_properties-nil props
check_properties-nil (field key p props) = check_properties-nil props

struct_schema-unchecked :
    (names : List Str) (props : Fields)
    → validate_against_schema (some (struct_schema names props)) none ≡ none
unfolding validate_against_schema required_of check_required get str_eq
struct_schema-unchecked [] props = check_properties-nil props
struct_schema-unchecked (r ∷ rs) props = check_properties-nil props

-- The schema that is generated of any struct accepts a call without arguments, whichever fields
-- the struct marks as required.
pub generated-unchecked :
    (fs : GoFields)
    → validate_against_schema (some (generate_parameters_schema (struct fs))) none ≡ none
unfolding generate_parameters_schema generate_struct_schema generate_property_schema
generated-unchecked fs = struct_schema-unchecked (required_names fs) (properties_from no_field fs)

-- The types that the check of a value knows.
abbrev pub is_known : Str → Bool
is_known t =
    str_eq t (lit "string")
    || str_eq t (lit "number")
    || str_eq t (lit "boolean")
    || str_eq t (lit "array")
    || str_eq t (lit "object")

is_nil-nil : (val : Value) → is_nil val ≡ true → val ≡ nil
is_nil-nil nil h = refl
is_nil-nil val h = cc

module _ (f : Fmt) where
  check_type-accepted :
      (key t : Str) (val : Value)
      → (check_type f key t val ≡ accepted) ↔ ((is_known t ≡ true) × (has_type (some t) val ≡ true))
  unfolding check_type has_type
  check_type-accepted key t val = ground arith

  check_type-panics :
      (key t : Str) (val : Value)
      → check_type f key t val ≡ panics
      → (t ≡ lit "array") × (is_nil val ≡ true)
  unfolding check_type
  check_type-panics key t val h = ((str_eq_iff t (lit "array")).0 (ground arith), ground arith)

  nil-panics : (key : Str) → check_type f key (lit "array") nil ≡ panics
  unfolding check_type str_eq
  nil-panics key = refl

  -- What the check of a value decides: it accepts, and it panics, just when stated.
  abbrev pub Decides : Str → Value → Verdict → Type 0
  Decides t val v =
      ((v ≡ accepted) ↔ ((is_known t ≡ true) × (has_type (some t) val ≡ true)))
      × ((v ≡ panics) ↔ ((t ≡ lit "array") × (val ≡ nil)))

  check_type-Decides : (key t : Str) (val : Value) → Decides t val (check_type f key t val)
  check_type-Decides key t val = (
    check_type-accepted key t val,
    (
      (λ h.
          let (is_arr, is_nil_val) = check_type-panics key t val h in
          (is_arr, is_nil-nil val is_nil_val)),
      λ (is_arr, e).
          subst (λ u. check_type f key u val ≡ panics) (sym is_arr)
            (subst (λ v. check_type f key (lit "array") v ≡ panics) (sym e) (nil-panics key)),
    ),
  )

  -- The validator of a type panics just on a nil where an array is expected; otherwise it accepts
  -- an argument that is there just when the check against a schema takes it for that type, which
  -- must be a known one. An absent argument is accepted.
  pub validate_type-Verdict :
      (key t : Str) (args : Args)
      → ((arg args key ≡ none) × (validate_type f key t args ≡ accepted))
        ⊎ ((val : Value) × (arg args key ≡ some val) × Decides t val (validate_type f key t args))
  unfolding validate_type
  validate_type-Verdict key t args = elim (Option-cases (arg args key)) [
    | inl absent ↦
        inl (absent, subst (λ o. optional o (check_type f key t) ≡ accepted) (sym absent) refl)
    | inr (val, here) ↦ inr (
      val,
      here,
      subst (λ o. Decides t val (optional o (check_type f key t))) (sym here)
          (check_type-Decides key t val),
    )
  ]

-- The first of the validators that does not accept the arguments, if any, with what it says.
abbrev pub Stops : List Validator → Args → Verdict → Type 0
Stops [] args verdict = ⊥
Stops (v ∷ vs) args verdict =
    ((v args ≡ verdict) × (verdict ≢ accepted)) ⊎ ((v args ≡ accepted) × Stops vs args verdict)

-- All accept, or one stops, where `v` said so and `later` is what the others say.
and_then-cases :
    (v : Validator) (vs : List Validator) (args : Args) (said later : Verdict)
    → v args ≡ said
    → (All (λ (v : Validator). v args ≡ accepted) vs × (later ≡ accepted)) ⊎ Stops vs args later
    → (All (λ (v : Validator). v args ≡ accepted) (v ∷ vs) × (and_then said later ≡ accepted))
      ⊎ Stops (v ∷ vs) args (and_then said later)
and_then-cases v vs args accepted later this (inl (others, accepts)) = inl ((this, others), accepts)
and_then-cases v vs args accepted later this (inr stops) = inr (inr (this, stops))
and_then-cases v vs args (refused e) later this others = inr (inl (this, λ h. cc))
and_then-cases v vs args panics later this others = inr (inl (this, λ h. cc))

chain_validators-cases :
    (vs : List Validator) (args : Args)
    → (All (λ (v : Validator). v args ≡ accepted) vs × (chain_validators vs args ≡ accepted))
      ⊎ Stops vs args (chain_validators vs args)
unfolding chain_validators
chain_validators-cases [] args = inl (tt, refl)
chain_validators-cases (v ∷ vs) args =
    and_then-cases v vs args (v args) (chain_validators vs args) refl
      (chain_validators-cases vs args)

-- What becomes of a call by the verdict on its arguments: nothing is called after a refusal.
abbrev pub Answers : {W : Type 0} → Verdict → W → Option (Result Value × W) → Type 0
Answers accepted w result = ⊥
Answers (refused e) w result = result ≡ some (err e, w)
Answers panics w result = result ≡ none

Stops-Answers :
    {W : Type 0} (vs : List Validator) (args : Args) (verdict : Verdict) (called : Result Value × W)
    (w : W)
    → Stops vs args verdict
    → Answers verdict w (guard_call verdict called w)
Stops-Answers [] args verdict called w stops = absurd stops
Stops-Answers (v ∷ vs) args accepted called w (inl (this, other)) = absurd (other refl)
Stops-Answers (v ∷ vs) args (refused e) called w stops = refl
Stops-Answers (v ∷ vs) args panics called w stops = refl
Stops-Answers (v ∷ vs) args accepted called w (inr (this, stops)) =
    Stops-Answers vs args accepted called w stops

-- A tool wrapped with a chain of validators: either all of them accept the arguments, and the tool is
-- called and returns what it returns; or there is a first one that does not, and without a call, in
-- the same world, its error is returned, or the call panics as it does.
pub wrapped_call-Guarded :
    {W : Type 0} (tool : Tool W) (vs : List Validator) (args : Args) (w : W)
    → (All (λ (v : Validator). v args ≡ accepted) vs
        × (wrapped_call tool (some (chain_validators vs)) args w ≡ some (tool.call args w)))
      ⊎ ((verdict : Verdict) × Stops vs args verdict
          × Answers verdict w (wrapped_call tool (some (chain_validators vs)) args w))
unfolding wrapped_call
wrapped_call-Guarded tool vs args w = elim (chain_validators-cases vs args) [
  | inl (all_accept, accepts) ↦
      inl (all_accept, ap (λ v. guard_call v (tool.call args w) w) accepts)
  | inr stops ↦ inr (
    chain_validators vs args,
    stops,
    Stops-Answers vs args (chain_validators vs args) (tool.call args w) w stops,
  )
]
