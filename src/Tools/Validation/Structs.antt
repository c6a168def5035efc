-- ===== src/Tools/Validation/Structs.antt =====
-- llms/schema.go and tools/validation.go: the schema of a struct and what encoding/json makes of its
-- fields, which are exported and whose types have no `MarshalJSON` of their own.
use deepagent.Base.{
  ◌≡◌, ◌↔◌, ◌⊎◌, refl, ap, ◌∙◌, sym, arith, inl, inr, Bool, true, false, ◌||◌, ◌&&◌, not, ◌==◌,
  Option, none, some, [], ◌∷◌, Bool-cases, any, if◌then◌else◌,
}
use deepagent.Base.Text.{Str, lit, is_empty, str_eq}
use deepagent.Llms.GoType
use deepagent.Llms.GoType.{
  GoType, GoFields, string_kind, number_kind, byte_kind, bool_kind, map_kind, other_kind,
  slice_kind, ptr_kind, struct_kind,
}
use deepagent.Llms.Schema.{generate_parameters_schema}
use deepagent.Tools.Value.{Value, struct, Args, arg}
use deepagent.Tools.Validation.{is_string, is_number, is_boolean, is_array, is_object}
use deepagent.Tools.Validation.Schema.{validate_against_schema}
use deepagent.Tools.Validation.Generated.{takes, later_or, entered, generated-FitsSchema}

abbrev is_byte : GoType → Bool
is_byte byte_kind = true
is_byte _ = false

-- What encoding/json writes for a value of the Go type that is not nil: a slice of bytes is a text,
-- and an interface can be anything.
abbrev pub holds : GoType → Value → Bool
holds string_kind val = is_string val
holds number_kind val = is_number val
holds byte_kind val = is_number val
holds bool_kind val = is_boolean val
holds map_kind val = is_object val
holds other_kind val = true
holds (slice_kind t) val = if is_byte t then is_string val else is_array val
holds (ptr_kind t) val = holds t val
holds (struct_kind fs) val = is_object val

abbrev pub has_comma : Str → Bool
has_comma tag = any (λ c. c == 44) tag

-- The name of a field in JSON: what stands before the options of its tag.
abbrev pub name_in : Str → Str
name_in [] = []
name_in (c ∷ tag) = if c == 44 then [] else c ∷ name_in tag

-- The type of the field that JSON knows by the name; the tag "-" leaves a field out.
abbrev pub declared : GoFields → Str → Option GoType
declared GoType.no_field key = none
declared (GoType.field json required t fs) key =
    later_or (declared fs key)
      (if str_eq json (lit "-") then none else if str_eq (name_in json) key then some t else none)

abbrev pub FitsStruct : GoFields → Args → Type 0
FitsStruct fs args =
    (key : Str) (t : GoType) (val : Value)
    → declared fs key ≡ some t
    → arg args key ≡ some val
    → holds t val ≡ true

-- No interface, and no slice of bytes.
abbrev pub is_plain : GoType → Bool
is_plain other_kind = false
is_plain (slice_kind t) = not (is_byte t)
is_plain (ptr_kind t) = is_plain t
is_plain _ = true

abbrev pub is_named : GoFields → Str → Bool
is_named GoType.no_field key = false
is_named (GoType.field json required t fs) key = str_eq json key || is_named fs key

-- Every field is left out by its tag "-", or has a tag that is a name without options, which no
-- later field has, and a plain type.
abbrev pub all_plain : GoFields → Bool
all_plain GoType.no_field = true
all_plain (GoType.field json required t fs) =
    (str_eq json (lit "-")
      || (not (is_empty json) && (not (has_comma json) && (not (is_named fs json) && is_plain t))))
    && all_plain fs

name_in-plain : (tag : Str) → has_comma tag ≡ false → name_in tag ≡ tag
name_in-plain [] h = refl
name_in-plain (c ∷ tag) h = elim (Bool-cases (c == 44)) [
  | inl comma ↦ ground (arith)
  | inr other ↦ rw other (ap (λ (s : Str). c ∷ s) (name_in-plain tag (ground arith)))
]

plain-holds : (t : GoType) (val : Value) → is_plain t ≡ true → holds t val ≡ takes t val
plain-holds string_kind val h = refl
plain-holds number_kind val h = refl
plain-holds byte_kind val h = refl
plain-holds bool_kind val h = refl
plain-holds map_kind val h = refl
plain-holds other_kind val h = cc
plain-holds (slice_kind t) val h = ground arith
plain-holds (ptr_kind t) val h = plain-holds t val h
plain-holds (struct_kind fs) val h = refl

-- Of plain fields the schema has those that JSON has.
declared-entered :
    (fs : GoFields) (key : Str) → all_plain fs ≡ true → declared fs key ≡ entered fs key
declared-entered GoType.no_field key h = refl
declared-entered (GoType.field json required t fs) key h =
    let later = declared-entered fs key (ground arith) in
    elim (Bool-cases (str_eq json (lit "-"))) [
      | inl hidden ↦ rw (hidden, later) refl
      | inr shown ↦
          let given : is_empty json ≡ false = ground arith in
          let name = name_in-plain json (ground arith) in rw (shown, given, name, later) refl
    ]

later_or-some :
    (o p : Option GoType) (t : GoType) → later_or o p ≡ some t → (o ≡ some t) ⊎ (p ≡ some t)
later_or-some (some u) p t h = inl h
later_or-some none p t h = inr h

declared-plain :
    (fs : GoFields) (key : Str) (t : GoType)
    → all_plain fs ≡ true
    → declared fs key ≡ some t
    → is_plain t ≡ true
declared-plain GoType.no_field key t h e = cc
declared-plain (GoType.field json required u fs) key t h e =
    elim (later_or-some (declared fs key) _ t e) [
      | inl later ↦ declared-plain fs key t (ground arith) later
      | inr this ↦ elim (Bool-cases (str_eq json (lit "-"))) [
        | inl hidden ↦ cc (rw hidden at this)
        | inr shown ↦ elim (Bool-cases (str_eq (name_in json) key)) [
          | inl same ↦
              let it : some u ≡ some t = rw (shown, same) at this in
              let plain : is_plain u ≡ true = ground arith in cc
          | inr other ↦ cc (rw (shown, other) at this)
        ]
      ]
    ]

-- For a struct of exported fields, which all have a tag that is a name without options, no two the
-- same, or the tag "-", are no interfaces and no slices of bytes, and have no JSON of their own: the
-- schema that is generated accepts just the arguments of which each that JSON has a field for is of a
-- type that JSON writes for the field. Nothing is required, whatever the tags say, and a nil is not
-- accepted.
pub generated-FitsStruct :
    (fs : GoFields) (args : Args)
    → all_plain fs ≡ true
    → (validate_against_schema (some (generate_parameters_schema (struct fs))) args ≡ none)
      ↔ FitsStruct fs args
generated-FitsStruct fs args plain =
    let (fits, passes) = generated-FitsSchema fs args in
    (
      (λ passed key t val field_of at.
          plain-holds t val (declared-plain fs key t plain field_of)
          ∙ fits passed key t val (sym (declared-entered fs key plain) ∙ field_of) at),
      (λ fitting. passes (λ key t val field_of at.
          let field_is = declared-entered fs key plain ∙ field_of in
          sym (plain-holds t val (declared-plain fs key t plain field_is))
          ∙ fitting key t val field_is at)),
    )
