-- ===== src/Tools/Validation/Generated.antt =====
-- llms/schema.go and tools/validation.go: which arguments the schema of a struct accepts.
use deepagent.Base.{
  ◌≡◌, ◌↔◌, refl, ap, ◌∙◌, sym, subst, arith, inl, inr, Bool, true, false, ◌||◌, Option, none, some,
  List, [], ◌∷◌, Bool-cases, Option-cases, if◌then◌else◌,
}
use deepagent.Base.Text.{Str, lit, is_empty, str_eq, str_eq_iff, str_eq_refl}
use deepagent.Llms.GoType
use deepagent.Llms.GoType.{
  GoType, GoFields, string_kind, number_kind, byte_kind, bool_kind, map_kind, other_kind,
  slice_kind, ptr_kind, struct_kind,
}
use deepagent.Llms.Schema.{
  is_skipped, generate_parameters_schema, generate_struct_schema, generate_property_schema,
  properties_from, required_names, struct_schema,
}
use deepagent.Tools.Value.{
  Value, object, struct, Fields, no_field, field, get, set, Args, arg, as_string,
}
use deepagent.Tools.Validation.{is_string, is_number, is_boolean, is_array, is_object}
use deepagent.Tools.Validation.Schema.{
  required_of, check_required, has_type, check_property, check_properties, validate_against_schema,
}
use deepagent.Tools.Validation.Laws.{Conforms, check_properties-Conforms}

-- What the schema of the Go type takes.
abbrev pub takes : GoType → Value → Bool
takes string_kind val = is_string val
takes number_kind val = is_number val
takes byte_kind val = is_number val
takes bool_kind val = is_boolean val
takes map_kind val = is_object val
takes other_kind val = is_object val
takes (slice_kind t) val = is_array val
takes (ptr_kind t) val = takes t val
takes (struct_kind fs) val = is_object val

-- The fields that the schema leaves out.
abbrev pub is_hidden : Str → Bool
is_hidden tag = str_eq tag (lit "-") || is_empty tag

abbrev pub later_or : Option GoType → Option GoType → Option GoType
later_or (some t) o = some t
later_or none o = o

-- The type of the field that stands in the schema by the name.
abbrev pub entered : GoFields → Str → Option GoType
entered GoType.no_field key = none
entered (GoType.field json required t fs) key =
    later_or (entered fs key)
      (if is_hidden json then none else if str_eq json key then some t else none)

-- Each argument that the struct has a field for takes the type of the field.
abbrev pub FitsSchema : GoFields → Args → Type 0
FitsSchema fs args =
    (key : Str) (t : GoType) (val : Value)
    → entered fs key ≡ some t
    → arg args key ≡ some val
    → takes t val ≡ true

get-set :
    (fs : Fields) (key : Str) (v : Value) (other : Str)
    → get (set fs key v) other ≡ (if str_eq key other then some v else get fs other)
unfolding get set
get-set no_field key v other = refl
get-set (field k u fs) key v other =
    let rest = get-set fs key v other in
    ground (arith, rest, str_eq_iff k key, str_eq_iff k other, str_eq_iff key other)

-- the property of a field's type, or what was there
abbrev property_or : Option GoType → Option Value → Option Value
property_or (some t) o = some (object (generate_property_schema t))
property_or none o = o

property_or-later :
    (o : Option GoType) (skipped same : Bool) (t : GoType) (before : Option Value)
    → property_or o (
        if skipped
        then before
        else if same
        then some (object (generate_property_schema t))
        else before)
      ≡ property_or (later_or o (if skipped then none else if same then some t else none)) before
property_or-later (some u) skipped same t before = refl
property_or-later none true same t before = refl
property_or-later none false true t before = refl
property_or-later none false false t before = refl

get-if :
    (skipped : Bool) (props : Fields) (json : Str) (v : Value) (key : Str)
    → get (if skipped then props else set props json v) key
      ≡ (if skipped then get props key else if str_eq json key then some v else get props key)
get-if true props json v key = refl
get-if false props json v key = get-set props json v key

get-properties_from :
    (fs : GoFields) (props : Fields) (key : Str)
    → get (properties_from props fs) key ≡ property_or (entered fs key) (get props key)
unfolding properties_from is_skipped
get-properties_from GoType.no_field props key = refl
get-properties_from (GoType.field json required t fs) props key =
    get-properties_from fs _ key
    ∙ ap (property_or (entered fs key)) (get-if (is_hidden json) props json _ key)
    ∙ property_or-later (entered fs key) (is_hidden json) (str_eq json key) t (get props key)

-- No name stands twice.
abbrev Distinct : Fields → Type 0
Distinct no_field = Unit
Distinct (field k v fs) = (get fs k ≡ none) × Distinct fs

set-Distinct : (fs : Fields) (key : Str) (v : Value) → Distinct fs → Distinct (set fs key v)
unfolding set get
set-Distinct no_field key v h = (refl, tt)
set-Distinct (field k u fs) key v (fresh, others) = elim (Bool-cases (str_eq k key)) [
  | inl same ↦ rw same (subst (λ n. get fs n ≡ none) ((str_eq_iff k key).0 same) fresh, others)
  | inr other ↦ rw other (
    ground (arith, get-set fs key v k, str_eq_iff key k, str_eq_iff k key),
    set-Distinct fs key v others,
  )
]

properties_from-Distinct :
    (fs : GoFields) (props : Fields) → Distinct props → Distinct (properties_from props fs)
unfolding properties_from
properties_from-Distinct GoType.no_field props h = h
properties_from-Distinct (GoType.field json required t fs) props h =
    elim (Bool-cases (is_skipped json)) [
      | inl skipped ↦ rw skipped (properties_from-Distinct fs props h)
      | inr kept ↦ rw kept (properties_from-Distinct fs _ (set-Distinct props json _ h))
    ]

check_property-passes :
    (k : Str) (p : Value) (o : Option Value)
    → ((prop : Fields) (val : Value)
        → p ≡ object prop
        → o ≡ some val
        → has_type (as_string (get prop (lit "type"))) val ≡ true)
    → check_property k p o ≡ none
unfolding check_property
check_property-passes k (object prop) (some val) h = rw (h prop val refl refl) refl
check_property-passes k (object prop) none h = refl
check_property-passes k p o h = refl

get-first : (k : Str) (p : Value) (props : Fields) → get (field k p props) k ≡ some p
unfolding get
get-first k p props = rw (str_eq_refl k) refl

get-later :
    (k key : Str) (p q : Value) (props : Fields)
    → get props k ≡ none
    → get props key ≡ some q
    → get (field k p props) key ≡ some q
unfolding get
get-later k key p q props fresh e = elim (Bool-cases (str_eq k key)) [
  | inl same ↦
      let there : get props k ≡ some q =
        subst (λ n. get props n ≡ some q) (sym ((str_eq_iff k key).0 same)) e in
      cc (fresh, there)
  | inr other ↦ rw other e
]

check_properties-passes :
    (props : Fields) (args : Args)
    → Distinct props
    → Conforms props args
    → check_properties props args ≡ none
unfolding check_properties
check_properties-passes no_field args d h = refl
check_properties-passes (field k p props) args (fresh, others) h =
    rw
      (check_property-passes k p (arg args k)
        (λ prop val is at. h k prop val (get-first k p props ∙ ap some is) at))
      (check_properties-passes props args others
        (λ key prop val e at. h key prop val (get-later k key p (object prop) props fresh e) at))

struct_type-object :
    (names : List Str) (props : Fields)
    → get (struct_schema names props) (lit "type") ≡ some (Value.string (lit "object"))
unfolding get str_eq
struct_type-object [] props = refl
struct_type-object (r ∷ rs) props = refl

has_type-takes :
    (t : GoType) (val : Value)
    → has_type (as_string (get (generate_property_schema t) (lit "type"))) val ≡ takes t val
unfolding has_type generate_property_schema get str_eq
has_type-takes string_kind val = refl
has_type-takes number_kind val = refl
has_type-takes byte_kind val = refl
has_type-takes bool_kind val = refl
has_type-takes map_kind val = refl
has_type-takes other_kind val = refl
has_type-takes (slice_kind t) val = refl
has_type-takes (ptr_kind t) val = has_type-takes t val
has_type-takes (struct_kind fs) val =
    rw (struct_type-object (required_names fs) (properties_from no_field fs)) refl

struct_schema-checks :
    (names : List Str) (props : Fields) (args : Args)
    → validate_against_schema (some (struct_schema names props)) args ≡ check_properties props args
unfolding validate_against_schema required_of check_required get str_eq
struct_schema-checks [] props args = refl
struct_schema-checks (r ∷ rs) props args = refl

property_of :
    (fs : GoFields) (key : Str) (o : Option GoType)
    → entered fs key ≡ o
    → get (properties_from no_field fs) key ≡ property_or o none
unfolding get
property_of fs key o at = get-properties_from fs no_field key ∙ ap (λ o. property_or o none) at

object-injective : (a b : Fields) → some (object a) ≡ some (object b) → a ≡ b
object-injective a b h = cc

Conforms-FitsSchema :
    (fs : GoFields) (args : Args) → Conforms (properties_from no_field fs) args → FitsSchema fs args
Conforms-FitsSchema fs args h key t val field_of at =
    sym (has_type-takes t val)
    ∙ h key (generate_property_schema t) val (property_of fs key (some t) field_of) at

FitsSchema-Conforms :
    (fs : GoFields) (args : Args) → FitsSchema fs args → Conforms (properties_from no_field fs) args
FitsSchema-Conforms fs args fits key prop val e at = elim (Option-cases (entered fs key)) [
  | inl none_declared ↦ let absent = property_of fs key none none_declared in cc (absent, e)
  | inr (t, field_of) ↦
      let same : generate_property_schema t ≡ prop =
        object-injective _ _ (sym (property_of fs key (some t) field_of) ∙ e) in
      subst (λ p. has_type (as_string (get p (lit "type"))) val ≡ true) same
        (has_type-takes t val ∙ fits key t val field_of at)
]

-- The schema of a struct accepts just the arguments that fit it.
pub generated-FitsSchema :
    (fs : GoFields) (args : Args)
    → (validate_against_schema (some (generate_parameters_schema (struct fs))) args ≡ none)
      ↔ FitsSchema fs args
unfolding generate_parameters_schema generate_struct_schema generate_property_schema
generated-FitsSchema fs args =
    let props = properties_from no_field fs in
    let checks = struct_schema-checks (required_names fs) props args in
    (
      (λ passes.
          Conforms-FitsSchema fs args (check_properties-Conforms props args (sym checks ∙ passes))),
      (λ fits.
          checks
          ∙ check_properties-passes props args (properties_from-Distinct fs no_field tt)
              (FitsSchema-Conforms fs args fits)),
    )
