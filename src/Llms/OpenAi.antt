-- ===== src/Llms/OpenAi.antt =====
-- llms/openai, llms/groq and llms/ollama: a conversation as a request to an API like OpenAI's.
mod Tests
use deepagent.Base.{Bool, true, false, Option, none, some, List, [], ◌∷◌, map, if◌then◌else◌}
use deepagent.Base.Text.{Str, lit, is_empty, trim_space}
use deepagent.Llms.Schema.{generate_parameters_schema}
use deepagent.Tools.Value.{Fields}
use deepagent.Agent.Types.{Result, ok, err, Message, ToolCall, ToolSpec}

-- `openai.Tool` with its function; its type is always `function`.
pub record ToolDef : Type 0 where
  pub kind : Str
  pub name : Str
  pub description : Str
  pub parameters : Fields

pub record ChatRequest : Type 0 where
  pub model : Str
  pub messages : List Message
  pub tools : List ToolDef
  pub tool_choice : Option Str

-- The message of a choice of the response.
pub record Choice : Type 0 where
  pub content : Str
  pub tool_calls : List ToolCall

-- The settings of the library's client; `none` is the library's own base URL.
pub record Client : Type 0 where
  pub api_key : Str
  pub base_url : Option Str

pub record OpenAi : Type 0 where
  pub client : Client
  pub model : Str

-- `New` and `NewWithBaseURL`
unfoldable pub new : Str → Str → OpenAi
new api_key model = record { client = record { api_key = api_key; base_url = none }; model = model }

unfoldable pub new_with_base_url : Str → Str → Str → OpenAi
new_with_base_url api_key model base_url = record {
  client = record {
    api_key = api_key;
    base_url = if is_empty base_url then none else some base_url;
  };
  model = model;
}

abbrev pub url_or : Str → Str → Str
url_or standard base_url = if is_empty (trim_space base_url) then standard else base_url

-- `groq.New` and `ollama.New`, whose `Invoke` is that of the inner model
unfoldable pub new_groq : Str → Str → Str → OpenAi
unfolding new_with_base_url
new_groq api_key model base_url =
    new_with_base_url api_key model (url_or (lit "https://api.groq.com/openai/v1") base_url)

unfoldable pub new_ollama : Str → Str → OpenAi
unfolding new_with_base_url
new_ollama model base_url =
    new_with_base_url (lit "ollama") model (url_or (lit "http://localhost:11434/v1") base_url)

unfoldable pub tool_defs : List ToolSpec → List ToolDef
tool_defs [] = []
tool_defs (t ∷ ts) =
    record {
      kind = lit "function";
      name = t.name;
      description = t.description;
      parameters = generate_parameters_schema t.parameters;
    }
    ∷ tool_defs ts

-- `req.ToolChoice = "auto"` where there are tools
abbrev pub choice_for : List ToolDef → Option Str
choice_for [] = none
choice_for (_ ∷ _) = some (lit "auto")

unfoldable pub chat_request : OpenAi → List Message → List ToolSpec → ChatRequest
unfolding tool_defs
chat_request o messages tools = record {
  model = o.model;
  messages = map (λ m. record { role = m.role; content = m.content }) messages;
  tools = tool_defs tools;
  tool_choice = choice_for (tool_defs tools);
}

abbrev pub reply_of : Choice → Str × List ToolCall
reply_of choice = elim choice.tool_calls [ [] ↦ (choice.content, []) | c ∷ cs ↦ ([], c ∷ cs) ]

-- `resp.Choices[0]`; `none` is a panic
abbrev pub first_choice : Result (List Choice) → Option (Result (Str × List ToolCall))
first_choice (err e) = some (err e)
first_choice (ok []) = none
first_choice (ok (choice ∷ _)) = some (ok (reply_of choice))

module _ {W : Type 0}
    (create_chat_completion : Client → ChatRequest → W → Result (List Choice) × W) where
  -- What `Invoke` returns; `none` is a panic.
  unfoldable pub invoke :
      OpenAi → List Message → List ToolSpec → W → Option (Result (Str × List ToolCall)) × W
  unfolding chat_request
  invoke o messages tools w =
      let (response, w') = create_chat_completion o.client (chat_request o messages tools) w in
      (first_choice response, w')
