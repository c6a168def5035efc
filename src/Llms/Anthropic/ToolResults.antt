-- ===== src/Llms/Anthropic/ToolResults.antt =====
-- llms/anthropic/anthropic.go with agent/graph.go: what becomes of the result of a tool.
use deepagent.Base.{
  ◌≡◌, refl, ap, ◌∙◌, Bool, true, false, Option, none, some, [], ◌∷◌, if◌then◌else◌, arith,
}
use deepagent.Base.Text.{Str, lit, is_empty, str_eq, trim_space, str_eq_refl}
use deepagent.Tools.Value.{Value, string, boolean, Fields, no_field, field, get}
use deepagent.Agent.Types.{ok, ToolResult}
use deepagent.Agent.Graph.{Graph, format_tool_message}
use deepagent.Llms.Anthropic.{
  Api, shown_error, shown_data, result_content, tool_result_block, block_of,
  parse_tool_result_block, text_or_empty, is_true,
}

-- The `omitempty` of a text and of `any`.
abbrev pub text_field : Str → Str → Fields → Fields
text_field key [] rest = rest
text_field key (c ∷ s) rest = field key (string (c ∷ s)) rest

abbrev pub any_field : Str → Option Value → Fields → Fields
any_field key none rest = rest
any_field key (some v) rest = field key v rest

-- The JSON of a `ToolResult` as a map, by the tags of its fields, with `decoded` for what its data
-- reads as.
abbrev pub json_fields : ToolResult → Option Value → Fields
json_fields r decoded = field (lit "tool") (string r.tool) (
    text_field (lit "tool_call_id") r.tool_call_id (
      field (lit "ok") (boolean r.is_ok) (
        any_field (lit "data") decoded
          (text_field (lit "error") r.error (text_field (lit "code") r.code no_field)))))

-- What the model is to be told of a result.
abbrev pub told : {W : Type 0} → Api W → Bool → Option Value → Str → Str
told api true decoded e = shown_data api decoded
told api false decoded e = shown_error e

skip_text :
    (key s : Str) (rest : Fields) (other : Str)
    → str_eq key other ≡ false
    → get (text_field key s rest) other ≡ get rest other
unfolding get
skip_text key [] rest other h = refl
skip_text key (c ∷ s) rest other h = rw h

skip_any :
    (key : Str) (o : Option Value) (rest : Fields) (other : Str)
    → str_eq key other ≡ false
    → get (any_field key o rest) other ≡ get rest other
unfolding get
skip_any key none rest other h = refl
skip_any key (some v) rest other h = rw h

here_text :
    (key s : Str) (rest : Fields)
    → get rest key ≡ none
    → text_or_empty (get (text_field key s rest) key) ≡ s
unfolding get
here_text key [] rest h = ap text_or_empty h
here_text key (c ∷ s) rest h = rw (str_eq_refl key)

here_any :
    (key : Str) (o : Option Value) (rest : Fields)
    → get rest key ≡ none
    → get (any_field key o rest) key ≡ o
unfolding get
here_any key none rest h = h
here_any key (some v) rest h = rw (str_eq_refl key)

module _ (r : ToolResult) (decoded : Option Value) where
  abbrev codes : Fields
  codes = text_field (lit "code") r.code no_field

  abbrev errors : Fields
  errors = text_field (lit "error") r.error codes

  abbrev rest_of : Fields
  rest_of = field (lit "ok") (boolean r.is_ok) (any_field (lit "data") decoded errors)

  -- A name that is none of the keys of the struct after `ok`.
  absent :
      (key : Str)
      → str_eq (lit "ok") key ≡ false
      → str_eq (lit "data") key ≡ false
      → str_eq (lit "error") key ≡ false
      → str_eq (lit "code") key ≡ false
      → get rest_of key ≡ none
  unfolding get
  absent key not_ok not_data not_error not_code = rw not_ok (
      skip_any (lit "data") decoded errors key not_data
      ∙ skip_text (lit "error") r.error codes key not_error
      ∙ skip_text (lit "code") r.code no_field key not_code)

  get-id : text_or_empty (get (json_fields r decoded) (lit "tool_call_id")) ≡ r.tool_call_id
  unfolding get str_eq
  get-id =
      here_text (lit "tool_call_id") r.tool_call_id rest_of
        (absent (lit "tool_call_id") refl refl refl refl)

  get-rest :
      (key : Str)
      → str_eq (lit "tool") key ≡ false
      → str_eq (lit "tool_call_id") key ≡ false
      → get (json_fields r decoded) key ≡ get rest_of key
  unfolding get
  get-rest key not_tool not_id =
      rw not_tool (skip_text (lit "tool_call_id") r.tool_call_id rest_of key not_id)

  get-ok : is_true (get (json_fields r decoded) (lit "ok")) ≡ r.is_ok
  unfolding get str_eq
  get-ok = ap is_true (get-rest (lit "ok") refl refl)

  get-data : get (json_fields r decoded) (lit "data") ≡ decoded
  unfolding get str_eq
  get-data =
      get-rest (lit "data") refl refl
      ∙ here_any (lit "data") decoded errors (
          skip_text (lit "error") r.error codes (lit "data") refl
          ∙ skip_text (lit "code") r.code no_field (lit "data") refl)

  get-error : text_or_empty (get (json_fields r decoded) (lit "error")) ≡ r.error
  unfolding get str_eq
  get-error =
      ap text_or_empty
        (get-rest (lit "error") refl refl ∙ skip_any (lit "data") decoded errors (lit "error") refl)
      ∙ here_text (lit "error") r.error codes
          (skip_text (lit "code") r.code no_field (lit "error") refl)

  module _ {W : Type 0} (api : Api W) where
    told_of :
        (good : Bool) (data_of : Option Value) (e : Str)
        → (if good then shown_data api data_of else shown_error e) ≡ told api good data_of e
    told_of true data_of e = refl
    told_of false data_of e = refl

    result_content-told :
        result_content api (json_fields r decoded) ≡ told api r.is_ok decoded r.error
    unfolding result_content
    result_content-told = rw (get-ok, get-data, get-error) (told_of r.is_ok decoded r.error)

    block_of-told :
        is_empty (trim_space r.tool_call_id) ≡ false
        → block_of api (some (json_fields r decoded))
          ≡ some (tool_result_block r.tool_call_id (told api r.is_ok decoded r.error))
    block_of-told solid = rw (get-id, solid, result_content-told) refl

format-ok :
    {W : Type 0} (g : Graph W) (r : ToolResult) (payload : Str)
    → g.encode r ≡ ok payload
    → format_tool_message g r ≡ payload
unfolding format_tool_message
format-ok g r payload encoded = ground arith

-- Where the result is encoded, its JSON reads as its fields and the id of its call is not blank: the
-- message by which the run answers a tool call is what Anthropic's block is made from. The block
-- names the call, and holds the data of a good result (or `ok` where there is none) and the error of a
-- failed one. `decoded` is what the data of the JSON reads as.
pub tool_message-Block :
    {W V : Type 0} (g : Graph W) (api : Api V) (r : ToolResult) (payload : Str)
    (decoded : Option Value)
    → g.encode r ≡ ok payload
    → api.unmarshal payload ≡ some (json_fields r decoded)
    → is_empty (trim_space r.tool_call_id) ≡ false
    → parse_tool_result_block api (format_tool_message g r)
      ≡ some (tool_result_block r.tool_call_id (told api r.is_ok decoded r.error))
unfolding parse_tool_result_block
tool_message-Block g api r payload decoded encoded read solid =
    rw (format-ok g r payload encoded) (rw read (block_of-told r decoded api solid))
