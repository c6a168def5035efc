-- ===== src/Llms/Anthropic.antt =====
-- llms/anthropic/anthropic.go: the conversation as a request to Anthropic's API, and its response.
pub mod Conversation
pub mod ToolResults
mod Tests
use deepagent.Base.{
  ℕ, Bool, true, false, Option, none, some, List, [], ◌∷◌, ◌++◌, ◌==◌, map, if◌then◌else◌,
}
use deepagent.Base.Text.{Str, lit, is_empty, str_eq, trim_space, trim_right}
use deepagent.Base.Http.{HttpRequest, HttpResponse, is_success}
use deepagent.Llms.Schema.{generate_parameters_schema}
use deepagent.Tools.Value.{
  Value, string, boolean, array, object, Values, no_value, value, Fields, no_field, field, get,
  Args,
}
use deepagent.Agent.Types.{Result, ok, err, Message, ToolCall, ToolSpec}

-- `requestMessage`: a block of the content is a map.
pub record RequestMessage : Type 0 where
  pub role : Str
  pub content : List Fields

pub record RequestTool : Type 0 where
  pub name : Str
  pub description : Str
  pub input_schema : Fields

pub record MessageRequest : Type 0 where
  pub model : Str
  pub system : Str
  pub max_tokens : ℕ
  pub messages : List RequestMessage
  pub tools : List RequestTool

-- `responseContentBlock`; the field `kind` is Go's `Type`.
pub record ResponseBlock : Type 0 where
  pub kind : Str
  pub text : Str
  pub id : Str
  pub name : Str
  pub input : Args

pub record Anthropic : Type 0 where
  pub api_key : Str
  pub model : Str
  pub base_url : Str
  pub version : Str
  pub max_tokens : ℕ

-- What is used of encoding/json and net/http. `unmarshal` reads a text as a map, and `marshal` does
-- not fail on what it is given, or its error is dropped.
pub record Api (W : Type 0) : Type 0 where
  pub unmarshal : Str → Option Fields
  pub marshal : Value → Str
  pub marshal_request : MessageRequest → Result Str
  pub valid_url : Str → Option Str
  pub send : HttpRequest → W → Result HttpResponse × W
  pub unmarshal_response : Str → Result (List ResponseBlock)

-- `New`
unfoldable pub new : Str → Str → Str → Anthropic
new api_key model base_url =
    let url =
      if is_empty (trim_space base_url) then lit "https://api.anthropic.com" else base_url in
    record {
      api_key = api_key;
      model = model;
      base_url = trim_right (λ c. c == 47) url;
      version = lit "2023-06-01";
      max_tokens = 2048;
    }

-- `map[string]any{"type": "text", "text": text}`
abbrev pub text_block : Str → Fields
text_block text =
    field (lit "type") (string (lit "text")) (field (lit "text") (string text) no_field)

abbrev pub tool_result_block : Str → Str → Fields
tool_result_block id text = field (lit "type") (string (lit "tool_result")) (
    field (lit "tool_use_id") (string id)
      (field (lit "content") (array (value (object (text_block text)) no_value)) no_field))

-- `v, _ := x.(string)` and `v, _ := x.(bool)`
abbrev pub text_or_empty : Option Value → Str
text_or_empty (some (string s)) = s
text_or_empty _ = []

abbrev pub is_true : Option Value → Bool
is_true (some (boolean b)) = b
is_true _ = false

-- the map as a value; the nil map is null
abbrev pub input_value : Args → Value
input_value none = Value.nil
input_value (some fs) = object fs

abbrev pub shown_error : Str → Str
shown_error e = if is_empty (trim_space e) then lit "tool execution failed" else e

-- the block, or the text of a legacy message
abbrev pub block_or_text : Str → Option Fields → Fields
block_or_text content (some block) = block
block_or_text content none = text_block (lit "Tool result: " ++ content)

-- the system's text with one more line
abbrev pub add_line : Str → Str → Str
add_line system content = if is_empty system then content else system ++ (lit "\n" ++ content)

abbrev pub is_said : Str → Bool
is_said role = if str_eq role (lit "assistant") then true else str_eq role (lit "user")

unfoldable pub convert_tools : List ToolSpec → List RequestTool
convert_tools [] = []
convert_tools (t ∷ ts) =
    record {
      name = t.name;
      description = t.description;
      input_schema = generate_parameters_schema t.parameters;
    }
    ∷ convert_tools ts

unfoldable pub text_parts : List ResponseBlock → List Str
text_parts [] = []
text_parts (b ∷ bs) =
    let rest = text_parts bs in
    if str_eq b.kind (lit "text") then (if is_empty b.text then rest else b.text ∷ rest) else rest

-- `strings.Join(textParts, "\n")`
unfoldable pub join_lines : List Str → Str
join_lines [] = []
join_lines (l ∷ []) = l
join_lines (l ∷ more) = l ++ (lit "\n" ++ join_lines more)

abbrev pub reply_with : List ToolCall → Str → Str × List ToolCall
reply_with [] text = (text, [])
reply_with calls text = ([], calls)

module _ {W : Type 0} (api : Api W) where
  abbrev pub shown_data : Option Value → Str
  shown_data (some v) = api.marshal v
  shown_data none = lit "ok"

  unfoldable pub result_content : Fields → Str
  result_content payload =
      if is_true (get payload (lit "ok"))
      then shown_data (get payload (lit "data"))
      else shown_error (text_or_empty (get payload (lit "error")))

  abbrev pub block_of : Option Fields → Option Fields
  block_of none = none
  block_of (some payload) =
      let id = text_or_empty (get payload (lit "tool_call_id")) in
      if is_empty (trim_space id)
      then none
      else some (tool_result_block id (result_content payload))

  unfoldable pub parse_tool_result_block : Str → Option Fields
  unfolding result_content
  parse_tool_result_block content = block_of (api.unmarshal content)

  -- the body of the loop over the messages
  unfoldable pub add_message : MessageRequest → Message → MessageRequest
  unfolding parse_tool_result_block
  add_message req m =
      if str_eq m.role (lit "system")
      then record req { system = add_line req.system m.content }
      else if is_said m.role
      then record req {
        messages =
            req.messages ++ record { role = m.role; content = text_block m.content ∷ [] } ∷ [];
      }
      else if str_eq m.role (lit "tool")
      then record req {
        messages =
            req.messages
            ++ record {
              role = lit "user";
              content = block_or_text m.content (parse_tool_result_block m.content) ∷ [];
            }
              ∷ [];
      }
      else req

  unfoldable pub add_messages : MessageRequest → List Message → MessageRequest
  unfolding add_message
  add_messages req [] = req
  add_messages req (m ∷ ms) = add_messages (add_message req m) ms

  -- the loop over the blocks of the response: the tool calls, and the texts
  unfoldable pub tool_calls : List ResponseBlock → List ToolCall
  tool_calls [] = []
  tool_calls (b ∷ bs) =
      let rest = tool_calls bs in
      if str_eq b.kind (lit "tool_use")
      then record { id = b.id; name = b.name; arguments = api.marshal (input_value b.input) } ∷ rest
      else rest

  unfoldable pub reply : List ResponseBlock → Str × List ToolCall
  unfolding tool_calls text_parts join_lines
  reply blocks = reply_with (tool_calls blocks) (join_lines (text_parts blocks))

  abbrev pub parsed : Result (List ResponseBlock) → Result (Str × List ToolCall)
  parsed (err e) = err e
  parsed (ok blocks) = ok (reply blocks)

  abbrev pub received : Result HttpResponse × W → Result (Str × List ToolCall) × W
  received (err e, w) = (err e, w)
  received (ok resp, w) =
      let answer = parsed (api.unmarshal_response resp.body) in
      (
        if is_success resp.status_code
            then answer
            else err (
                lit "anthropic api error: "
                ++ (resp.status ++ (lit " (" ++ (trim_space resp.body ++ lit ")")))),
        w,
      )

  module _ (a : Anthropic) where
    unfoldable pub request_body : List Message → List ToolSpec → MessageRequest
    unfolding add_messages convert_tools
    request_body messages tools =
        let req =
          add_messages
            (record {
              model = a.model;
              system = [];
              max_tokens = a.max_tokens;
              messages = [];
              tools = [];
            })
            messages in
        record req { tools = convert_tools tools }

    abbrev pub endpoint : Str
    endpoint = a.base_url ++ lit "/v1/messages"

    abbrev pub http_request : Str → HttpRequest
    http_request payload = record {
      url = endpoint;
      headers =
          (lit "content-type", lit "application/json")
          ∷ (lit "x-api-key", a.api_key)
          ∷ (lit "anthropic-version", a.version)
          ∷ [];
      body = payload;
    }

    abbrev pub sent : Str → Option Str → W → Result (Str × List ToolCall) × W
    sent payload (some e) w = (err e, w)
    sent payload none w = received (api.send (http_request payload) w)

    abbrev pub posted : Result Str → W → Result (Str × List ToolCall) × W
    posted (err e) w = (err e, w)
    posted (ok payload) w = sent payload (api.valid_url endpoint) w

    unfoldable pub invoke : List Message → List ToolSpec → W → Result (Str × List ToolCall) × W
    unfolding request_body reply
    invoke messages tools w =
        let done = posted (api.marshal_request (request_body messages tools)) w in
        if is_empty (trim_space a.api_key)
        then (err (lit "anthropic api key is required"), w)
        else done
