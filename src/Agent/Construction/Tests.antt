-- ===== src/Agent/Construction/Tests.antt =====
-- Some options and environments, and the theorems about construction at them.
use deepagent.Base.{ℕ, ◌≡◌, refl, some, List, [], ◌∷◌, if◌then◌else◌}
use deepagent.Base.Text.{Str, lit, str_eq, has_prefix, trim, is_space}
use deepagent.Tools.Value.{Value}
use deepagent.Agent.Types.{ok}
use deepagent.Agent.Graph.{Tool, lookup}
use deepagent.Agent.Construction.{
  ModelOptions, Env, provider_of, model_of, build_default_llm, graph_tools,
}
use deepagent.Agent.Construction.Provider.{Fits, build_default_llm-Fits}

abbrev same : ℕ → ℕ
same c = c

abbrev options : ModelOptions
options = record { model = lit " Claude-3 "; provider = []; api_key = []; base_url = [] }

abbrev env : Env
env name = if str_eq name (lit "ANTHROPIC_API_KEY") then lit "key" else []

inferred : provider_of same options env ≡ lit "anthropic"
unfolding provider_of str_eq trim is_space has_prefix
inferred = refl

build_default_llm-Fits_example :
    Fits options env
      (provider_of same options env)
      (model_of same options)
      (build_default_llm same options env)
build_default_llm-Fits_example = build_default_llm-Fits same options env

abbrev tool : Str → Str → Tool ℕ
tool name description = record {
  name = name;
  description = description;
  parameters = Value.nil;
  call = λ args w. (ok Value.nil, w);
}

abbrev mine : List (Tool ℕ)
mine = tool (lit "ls") (lit "mine") ∷ tool (lit "sum") (lit "mine") ∷ []

abbrev theirs : List (Tool ℕ)
theirs = tool (lit "ls") (lit "built in") ∷ []

-- A built-in tool takes the place of the user's tool of its name.
replaced : lookup (graph_tools mine theirs) (lit "ls") ≡ some (tool (lit "ls") (lit "built in"))
unfolding lookup graph_tools str_eq
replaced = refl
