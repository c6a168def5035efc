-- ===== src/Llms/Anthropic/Tests.antt =====
-- A conversation with a tool, and the theorems about Anthropic's requests at it.
use deepagent.Base.{ℕ, ◌≡◌, refl, false, none, some, List, [], ◌∷◌, All, if◌then◌else◌}
use deepagent.Base.Text.{lit, str_eq, trim, trim_right, is_space}
use deepagent.Agent.Types.{ok, Message, ToolResult}
use deepagent.Agent.Graph.{Graph, format_tool_message}
use deepagent.Llms.Anthropic.{
  Api, Anthropic, new, tool_result_block, parse_tool_result_block, join_lines, request_body, reply,
  tool_calls, text_parts, invoke,
}
use deepagent.Llms.Anthropic.Conversation.{
  turns, from_first, system_texts, HasAnswers, request_body-Conversation,
}
use deepagent.Llms.Anthropic.ToolResults.{json_fields, tool_message-Block}

abbrev result : ToolResult
result = record {
  tool = lit "ls";
  tool_call_id = lit "toolu_1";
  is_ok = false;
  result = none;
  error = lit "no disk";
  code = lit "tool_execution_error";
}

-- The text `json` stands for the JSON of the result.
abbrev api : Api ℕ
api = record {
  unmarshal = λ text. if str_eq text (lit "json") then some (json_fields result none) else none;
  marshal = λ v. lit "value";
  marshal_request = λ req. ok (lit "payload");
  valid_url = λ url. none;
  send = λ req w. (ok (record { status_code = 200; status = lit "200 OK"; body = lit "reply" }), w);
  unmarshal_response = λ body. ok (
      record { kind = lit "text"; text = lit "a"; id = []; name = []; input = none }
      ∷ record { kind = lit "text"; text = []; id = []; name = []; input = none }
      ∷ record { kind = lit "text"; text = lit "b"; id = []; name = []; input = none }
      ∷ []);
}

abbrev graph : Graph ℕ
graph = record {
  invoke = λ messages specs w. (ok (lit "done", []), w);
  tools = [];
  prompt = lit "be kind";
  load = λ thread w. (ok none, w);
  save = λ thread s w. w;
  put = λ thread key result w. w;
  config = [];
  approver = λ question w. ((lit "answer", none), w);
  has_event_sink = false;
  has_audit = false;
  include_args = false;
  validate = λ schema args. none;
  decode_args = λ text. none;
  decode = λ text. none;
  encode = λ result. ok (lit "json");
  hash = λ text. text;
  now = λ w. lit "7";
}

abbrev client : Anthropic
client = new (lit "key") (lit "claude") []

abbrev conversation : List Message
conversation =
    record { role = lit "system"; content = [] }
    ∷ record { role = lit "system"; content = lit "be kind" }
    ∷ record { role = lit "user"; content = lit "hi" }
    ∷ record { role = lit "assistant"; content = [] }
    ∷ record { role = lit "tool"; content = lit "json" }
    ∷ []

-- The texts are joined, without the empty ones.
texts_reply : (invoke api client conversation [] 0).0 ≡ ok (lit "a\nb", [])
unfolding invoke reply tool_calls text_parts join_lines str_eq trim trim_right is_space new
texts_reply = refl

read : api.unmarshal (lit "json") ≡ some (json_fields result none)
unfolding str_eq
read = refl

tool_message-Block_example :
    parse_tool_result_block api (format_tool_message graph result)
    ≡ some (tool_result_block (lit "toolu_1") (lit "no disk"))
unfolding trim is_space
tool_message-Block_example = tool_message-Block graph api result (lit "json") none refl read refl

request_body-Conversation_example :
    ((request_body api client conversation []).messages ≡ turns api conversation)
    × ((request_body api client conversation []).system
        ≡ join_lines (from_first (system_texts conversation)))
    × All (HasAnswers api) (request_body api client conversation []).messages
request_body-Conversation_example = request_body-Conversation api client conversation []
