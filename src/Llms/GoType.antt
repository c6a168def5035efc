-- ===== src/Llms/GoType.antt =====
-- The Go types that llms/schema.go tells apart through the package `reflect`. The struct fields
-- carry the two tags that it reads, `json` and `required`. A byte is a number of its own, since JSON
-- writes a slice of bytes as a text; `other_kind` are interfaces and what JSON does not know.
use deepagent.Base.Text.{Str}

mutual
  pub data GoType : Type 0 where
    string_kind number_kind byte_kind bool_kind map_kind other_kind : GoType
    slice_kind : GoType → GoType
    ptr_kind : GoType → GoType
    struct_kind : GoFields → GoType

  pub data GoFields : Type 0 where
    no_field : GoFields
    field : (json required : Str) → GoType → GoFields → GoFields
