-- ===== src/Agent/Create/Tests.antt =====
-- An agent that is created with few options.
use deepagent.Base.{ℕ, ◌≡◌, refl, true, false, none, some, [], ◌∷◌, if◌then◌else◌}
use deepagent.Base.Text.{Str, lit, str_eq, trim, is_space}
use deepagent.Agent.Types.{Result, ok, err}
use deepagent.Agent.Graph.{Graph}
use deepagent.Agent.Construction.{Env, provider_of, use_provider}
use deepagent.Agent.Create.{Options, Parts, start_audit, create_deep_agent}

abbrev parts : Parts ℕ
parts = record {
  lower = λ c. c;
  connect = λ m messages specs w. (ok (lit "done", []), w);
  file_checkpointer = record { load = λ thread w. (ok none, w); save = λ thread s w. w };
  file_memory = λ thread key result w. w;
  console = λ question w. ((lit "answer", none), w);
  verify = λ path.
      if str_eq path (lit "new.jsonl")
      then some (lit "no such file", true)
      else some (lit "broken", false);
  open_logger = λ path. none;
  skills = (lit "go", lit "Write Go.") ∷ [];
  validate = λ schema args. none;
  decode_args = λ text. none;
  decode = λ text. none;
  encode = λ result. ok result.tool;
  hash = λ text. text;
  now = λ w. lit "7";
}

abbrev options : Options ℕ
options = record {
  model_options = record {
    model = lit "llama";
    provider = lit "ollama";
    api_key = [];
    base_url = [];
  };
  llm = none;
  tools = [];
  system_prompt = lit "be kind";
  checkpointer = none;
  memory = none;
  hitl_config = [];
  hitl_approver = none;
  has_audit_logger = false;
  hitl_audit_include_args = false;
  hitl_audit_verify_on_start = true;
}

-- The environment names this audit file.
abbrev audit_file : Str → Env
audit_file path name = if str_eq name (lit "DEEPAGENT_HITL_AUDIT_FILE") then path else []

abbrev prompt_of : Result (Graph ℕ) → Str
prompt_of (ok g) = g.prompt
prompt_of (err e) = e

-- A new file needs no verification; a file that does not verify stops the start.
new_file : start_audit parts (audit_file (lit "new.jsonl")) options ≡ ok true
unfolding start_audit str_eq trim is_space
new_file = refl

broken_file :
    start_audit parts (audit_file (lit "old.jsonl")) options
    ≡ err (lit "hitl audit chain verification failed: broken")
unfolding start_audit str_eq trim is_space
broken_file = refl

created :
    prompt_of (create_deep_agent parts (audit_file []) options [])
    ≡ lit "be kind\n\n=== Skill: go ===\nWrite Go.\n\n"
unfolding create_deep_agent provider_of use_provider str_eq trim is_space
created = refl
