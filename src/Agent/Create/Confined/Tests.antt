-- ===== src/Agent/Create/Confined/Tests.antt =====
-- An agent whose sub-agent asks for `ls -l` once and then answers.
use mathlib.Core.Path.{subst}
use deepagent.Base.{
  ◌≡◌, refl, ◌⊎◌, true, false, Bool, Option, none, some, List, [], ◌∷◌, map, if◌then◌else◌,
}
use deepagent.Base.Text.{
  Str, lit, has_prefix, str_eq, len, fields, contains_any, contains, trim, is_space,
}
use deepagent.Tools.Value.{string, no_field, field, get}
use deepagent.Agent.Types.{Result, ok, Message, ToolCall, Input, Output, AgentError}
use deepagent.Agent.Graph.{Graph, Run, lookup, should_interrupt}
use deepagent.Agent.Graph.Turns.{run, finish}
use deepagent.Memory.{find, insert}
use deepagent.Tools.Sandbox.{ExecuteConfig, Host, Exec, Shell, start}
use deepagent.Tools.Sandbox.Execute
use deepagent.Tools.Sandbox.Inner.{plain, sandbox_for}
use deepagent.Tools.Builtin
use deepagent.Tools.Files.{Backend}
use deepagent.Tools.Toolbox.Execute.{sandbox_execute}
use deepagent.Tools.Wrapping.{new_tool_with_parameters}
use deepagent.Agent.Construction.{graph_tools, Env}
use deepagent.Agent.Create.{Options, Parts, Llm, create_deep_agent, graph_of}
use deepagent.Agent.Create.Toolkit.{Toolkit, built_in_tools}
use deepagent.Agent.Create.Spawn.{sub_agent, spawning}
use deepagent.Agent.Subagent.{task, name_within}
use deepagent.Agent.Create.Quiet.{IsQuiet}
use deepagent.Agent.Create.Confined.{InSandboxes, agent-IsConfined}

-- Every command prints its name.
abbrev host : Host Unit
host = record {
  look_path = λ bin w. true;
  stat = λ path w. true;
  abs = λ path w. ok path;
  combined_output = λ cmd w. ((cmd.name, none), w);
  decode = λ out. out;
  itoa = λ n. n ∷ [];
  quote = λ text. text;
  lower = λ c. c;
}

abbrev processes : ExecuteConfig
processes = record {
  allowed_commands = (lit "ls", true) ∷ [];
  timeout = 30;
  max_output_size = 100;
  working_dir = lit ".";
  max_args = 2;
  max_arg_length = 8;
  isolation_mode = lit "process";
  container_binary = [];
  container_image = [];
  container_runtime = [];
  container_network = [];
  container_cpus = [];
  container_memory = [];
  container_pids_limit = 64;
  read_only_root_fs = true;
  container_user = [];
  enforce_non_root_user = true;
  require_rootless = false;
  seccomp_profile = [];
  require_seccomp = false;
  require_image_allowlist = true;
  allowed_images = [];
  require_signed_images = true;
  cosign_binary = [];
  cosign_key_ref = [];
  signature_verify_timeout = 20;
}

abbrev no_files : Backend (Shell Unit)
no_files = record {
  list = λ path s. ok [];
  read = λ path s. ok [];
  write = λ path content s. (none, s);
  edit = λ path instructions s. (none, s);
}

abbrev kit : Toolkit Unit
kit = record {
  host = host;
  backend = plain no_files;
  config = some processes;
  in_memory = no_files;
  standard = processes;
  skills = [];
  unicode = record { lower = λ c. c; is_word = λ c. false };
  quote = λ text. text;
  run_agent = λ prompt description s.
      (ok (record { messages = []; final = []; thread_id = []; request_id = [] }), s);
  value_of = λ out. string out.final;
}

abbrev asks : Str → Result (Str × List ToolCall)
asks tool = ok ([], record { id = lit "1"; name = tool; arguments = lit "ls -l" } ∷ [])

abbrev is_sub_agent : List Message → Bool
is_sub_agent [] = false
is_sub_agent (m ∷ _) = has_prefix m.content (lit "You are")

-- Before anything has run the agent asks for a sub-agent, and that one for a command.
abbrev model : Llm (Shell Unit)
model messages specs s = (
  elim s.ran [
    | [] ↦ if is_sub_agent messages then asks (lit "execute") else asks (lit "task")
    | _ ∷ _ ↦ ok (lit "done", [])
  ],
  s,
)

abbrev parts : Parts (Shell Unit)
parts = record {
  lower = λ c. c;
  connect = λ m. model;
  file_checkpointer = record { load = λ thread s. (ok none, s); save = λ thread state s. s };
  file_memory = λ thread key result s. s;
  console = λ question s. ((lit "approved", none), s);
  verify = λ path. none;
  open_logger = λ path. none;
  skills = [];
  validate = λ schema args. none;
  decode_args = λ text.
      some (field (lit "command") (string text) (field (lit "description") (string text) no_field));
  decode = λ text. none;
  encode = λ result. ok result.tool;
  hash = λ text. text;
  now = λ s. lit "7";
}

abbrev options : Options (Shell Unit)
options = record {
  model_options = record { model = []; provider = []; api_key = []; base_url = [] };
  llm = some model;
  tools = [];
  system_prompt = [];
  checkpointer = none;
  memory = none;
  hitl_config = [];
  hitl_approver = none;
  has_audit_logger = true;
  hitl_audit_include_args = false;
  hitl_audit_verify_on_start = false;
}

abbrev nowhere : Env
nowhere name = []

abbrev agent : Graph (Shell Unit)
agent =
    graph_of parts nowhere options (built_in_tools (spawning kit parts nowhere options 1)) model
      true

created :
    create_deep_agent parts nowhere options (built_in_tools (spawning kit parts nowhere options 1))
    ≡ ok agent
unfolding create_deep_agent
created = refl

abbrev ask : Input
ask = record {
  messages = record { role = lit "user"; content = lit "list" } ∷ [];
  thread_id = lit "t";
}

abbrev nothing_ran : Shell Unit
nothing_ran = record { world = tt; ran = [] }

abbrev world_of : Option ((Output ⊎ AgentError) × Run (Shell Unit)) → Shell Unit
world_of none = nothing_ran
world_of (some (_, r)) = r.world

-- The command runs once.
ls-ran :
    map (λ (e : Exec). e.command.name) (world_of (run agent ask nothing_ran)).ran ≡ lit "ls" ∷ []
unfolding run graph_of built_in_tools new_tool_with_parameters Builtin.execute sandbox_execute
    Execute.execute lookup should_interrupt str_eq finish graph_tools insert find trim is_space
    contains_any fields len contains sandbox_for get start sub_agent task has_prefix
    create_deep_agent name_within
ls-ran = refl

same_model : (a b : Llm (Shell Unit)) → ok a ≡ ok b → a ≡ b
same_model a b h = cc

quiet : IsQuiet kit parts nowhere options
quiet = record {
  model = λ llm messages specs made s.
      subst (λ (l : Llm (Shell Unit)). (l messages specs s).1.ran ≡ s.ran)
        (same_model model llm made) refl;
  load = λ thread s. refl;
  save = λ thread state s. refl;
  put = λ thread key result s. refl;
  approver = λ question s. refl;
  tools = tt;
  write = λ path content s. refl;
  edit = λ path instructions s. refl;
  new_write = λ path content s. refl;
  new_edit = λ path instructions s. refl;
}

agent-IsConfined_example :
    InSandboxes kit parts nowhere options quiet (world_of (run agent ask nothing_ran))
unfolding run graph_of built_in_tools new_tool_with_parameters Builtin.execute sandbox_execute
    Execute.execute lookup should_interrupt str_eq finish graph_tools insert find trim is_space
    contains_any fields len contains sandbox_for get start sub_agent task has_prefix
    create_deep_agent name_within
agent-IsConfined_example =
    agent-IsConfined kit parts nowhere options quiet 1 agent ask nothing_ran _ _ created tt refl
