-- ===== src/Agent/Construction.antt =====
-- agent/deepagent.go and agent/options.go: which model an agent gets, its defaults, and its tools.
pub mod Keeps
pub mod Provider
pub mod Registry
mod Tests
use deepagent.Base.{
  Bool, true, false, ◌||◌, Option, none, some, List, [], ◌∷◌, ◌++◌, ℕ, if◌then◌else◌,
}
use deepagent.Base.Text.{Str, lit, is_empty, str_eq, has_prefix, trim_space, to_lower}
use deepagent.Agent.Types.{
  Result, ok, err, ApprovalRequest, Message, ToolSpec, ToolCall, State, ToolResult,
}
use deepagent.Agent.Graph.{Tool, Graph}
use deepagent.Llms.OpenAi
use deepagent.Llms.OpenAi.{OpenAi, new_with_base_url, new_groq, new_ollama}
use deepagent.Llms.Anthropic
use deepagent.Llms.Anthropic.{Anthropic}
use deepagent.Memory.{insert}

-- The settings of `Options` by which a model is chosen.
pub record ModelOptions : Type 0 where
  pub model : Str
  pub provider : Str
  pub api_key : Str
  pub base_url : Str

-- The models that there are; those of groq and ollama are made of one of openai.
pub data ChatModel : Type 0 where
  openai groq ollama : OpenAi → ChatModel
  anthropic : Anthropic → ChatModel

-- `os.Getenv`
abbrev pub Env : Type 0
Env = Str → Str

-- The trimmed text, or the trimmed variable where it is blank.
abbrev pub setting : Env → Str → Str → Str
setting env text variable =
    if is_empty (trim_space text) then trim_space (env variable) else trim_space text

module _ (lower : ℕ → ℕ) where
  unfoldable pub infer_provider_from_model : Str → Str
  infer_provider_from_model model =
      let m = to_lower lower (trim_space model) in
      if has_prefix m (lit "claude")
      then lit "anthropic"
      else if has_prefix m (lit "groq/")
      then lit "groq"
      else if has_prefix m (lit "ollama/")
      then lit "ollama"
      else lit "openai"

  abbrev pub model_of : ModelOptions → Str
  model_of opts = if is_empty (trim_space opts.model) then lit "gpt-4o" else trim_space opts.model

  -- the variable `provider` before the switch
  unfoldable pub provider_of : ModelOptions → Env → Str
  unfolding infer_provider_from_model
  provider_of opts env =
      let chosen = to_lower lower (trim_space opts.provider) in
      let named = to_lower lower (trim_space (env (lit "DEEPAGENT_PROVIDER"))) in
      let inferred = infer_provider_from_model (model_of opts) in
      if is_empty chosen then (if is_empty named then inferred else named) else chosen

-- the cases of the switch
abbrev pub openai_model : Str → Str → Str → ChatModel
openai_model key model url =
    if is_empty url then openai (OpenAi.new key model) else openai (new_with_base_url key model url)

unfoldable pub use_openai : ModelOptions → Env → Str → Result ChatModel
use_openai opts env model =
    let key = setting env opts.api_key (lit "OPENAI_API_KEY") in
    if is_empty key
    then err (lit "OPENAI_API_KEY is required when provider is openai")
    else ok (openai_model key model (setting env opts.base_url (lit "OPENAI_BASE_URL")))

unfoldable pub use_anthropic : ModelOptions → Env → Str → Result ChatModel
use_anthropic opts env model =
    let key = setting env opts.api_key (lit "ANTHROPIC_API_KEY") in
    if is_empty key
    then err (lit "ANTHROPIC_API_KEY is required when provider is anthropic")
    else ok
        (anthropic (Anthropic.new key model (setting env opts.base_url (lit "ANTHROPIC_BASE_URL"))))

unfoldable pub use_groq : ModelOptions → Env → Str → Result ChatModel
use_groq opts env model =
    let key = setting env opts.api_key (lit "GROQ_API_KEY") in
    if is_empty key
    then err (lit "GROQ_API_KEY is required when provider is groq")
    else ok (groq (new_groq key model (setting env opts.base_url (lit "GROQ_BASE_URL"))))

unfoldable pub use_ollama : ModelOptions → Env → Str → Result ChatModel
use_ollama opts env model =
    ok (ollama (new_ollama model (setting env opts.base_url (lit "OLLAMA_BASE_URL"))))

abbrev pub is_openai : Str → Bool
is_openai provider = is_empty provider || str_eq provider (lit "openai")

unfoldable pub use_provider : Str → ModelOptions → Env → Str → Result ChatModel
unfolding use_openai use_anthropic use_groq use_ollama
use_provider provider opts env model =
    if is_openai provider
    then use_openai opts env model
    else if str_eq provider (lit "anthropic")
    then use_anthropic opts env model
    else if str_eq provider (lit "groq")
    then use_groq opts env model
    else if str_eq provider (lit "ollama")
    then use_ollama opts env model
    else err (
        lit "unsupported provider: "
        ++ (provider ++ lit " (expected one of openai, anthropic, groq, ollama)"))

unfoldable pub build_default_llm : (lower : ℕ → ℕ) → ModelOptions → Env → Result ChatModel
unfolding provider_of use_provider
build_default_llm lower opts env =
    use_provider (provider_of lower opts env) opts env (model_of lower opts)

-- `toolMap[t.Name()] = t` over the list, by `buildGraph`
unfoldable pub tool_map : {W : Type 0} → List (Str × Tool W) → List (Tool W) → List (Str × Tool W)
unfolding insert
tool_map m [] = m
tool_map m (t ∷ ts) = tool_map (insert m t.name t) ts

-- the map of `allTools`: the user's tools, then the built-in ones
unfoldable pub graph_tools : {W : Type 0} → List (Tool W) → List (Tool W) → List (Str × Tool W)
unfolding tool_map
graph_tools user built_in = tool_map [] (user ++ built_in)
