-- ===== src/Agent/Create.antt =====
-- agent/deepagent.go, `CreateDeepAgent`: the defaults of the options, the audit log at the start, and
-- the graph.
pub mod Toolkit
pub mod Spawn
pub mod Confined
pub mod Quiet
mod Tests
use deepagent.Base.{
  ℕ, Bool, true, false, ◌||◌, ◌&&◌, not, Option, none, some, List, [], ◌∷◌, ◌++◌, if◌then◌else◌,
}
use deepagent.Base.Text.{Str, lit, is_empty, str_eq, trim_space, to_lower}
use deepagent.Tools.Value.{Value, Fields, Args}
use deepagent.Tools.Builtin.{Skills, get_all_skills_context}
use deepagent.Agent.Types.{
  Result, ok, err, Message, ToolSpec, ToolCall, ToolResult, State, ApprovalRequest,
}
use deepagent.Agent.Graph.{Tool, Graph}
use deepagent.Agent.Construction.{ModelOptions, ChatModel, Env, build_default_llm, graph_tools}

-- What the graph calls of a model, a checkpointer, a memory and an approver.
abbrev pub Llm : Type 0 → Type 0
Llm W = List Message → List ToolSpec → W → Result (Str × List ToolCall) × W

pub record Checkpoints (W : Type 0) : Type 0 where
  pub load : Str → W → Result (Option State) × W
  pub save : Str → State → W → W

abbrev pub Put : Type 0 → Type 0
Put W = Str → Str → ToolResult → W → W

abbrev pub Approver : Type 0 → Type 0
Approver W = ApprovalRequest → W → (Str × Option Str) × W

-- `Options`; a nil interface or function is `none`, and of the audit logger it is only kept whether
-- there is one.
pub record Options (W : Type 0) : Type 0 where
  pub model_options : ModelOptions
  pub llm : Option (Llm W)
  pub tools : List (Tool W)
  pub system_prompt : Str
  pub checkpointer : Option (Checkpoints W)
  pub memory : Option (Put W)
  pub hitl_config : List (Str × Bool)
  pub hitl_approver : Option (Approver W)
  pub has_audit_logger : Bool
  pub hitl_audit_include_args : Bool
  pub hitl_audit_verify_on_start : Bool

-- The parts that are made elsewhere: the model's `Invoke`, the file checkpointer and memory, the
-- console's approver, the verification of an audit file (an error, and whether `os.IsNotExist` holds
-- of it), the opening of its logger, the skills, and what the graph uses of the libraries.
pub record Parts (W : Type 0) : Type 0 where
  pub lower : ℕ → ℕ
  pub connect : ChatModel → Llm W
  pub file_checkpointer : Checkpoints W
  pub file_memory : Put W
  pub console : Approver W
  pub verify : Str → Option (Str × Bool)
  pub open_logger : Str → Option Str
  pub skills : Skills
  pub validate : Fields → Args → Option Str
  pub decode_args : Str → Args
  pub decode : Str → Option Value
  pub encode : ToolResult → Result Str
  pub hash : Str → Str
  pub now : W → Str

abbrev pub get_or {ℓ} : {A : Type ℓ} → A → Option A → A
get_or a none = a
get_or a (some b) = b

-- `strings.EqualFold(strings.TrimSpace(os.Getenv(name)), "true")`
abbrev pub is_set : Env → Str → Bool
is_set env name = str_eq (to_lower (λ c. c) (trim_space (env name))) (lit "true")

-- the error of the verification counts unless the file is not there
abbrev pub chain_error : Bool → Option (Str × Bool) → Option Str
chain_error false o = none
chain_error true none = none
chain_error true (some (e, is_not_exist)) = if is_not_exist then none else some e

abbrev pub opened_logger : Option Str → Result Bool
opened_logger none = ok true
opened_logger (some e) = err (lit "failed to initialize hitl audit logger: " ++ e)

abbrev pub verified_logger : Option Str → Option Str → Result Bool
verified_logger (some e) bad = err (lit "hitl audit chain verification failed: " ++ e)
verified_logger none bad = opened_logger bad

module _ {W : Type 0} (parts : Parts W) (env : Env) where
  -- Whether there is an audit logger, made from the environment where the options have none.
  unfoldable pub start_audit : Options W → Result Bool
  start_audit opts =
      let path = trim_space (env (lit "DEEPAGENT_HITL_AUDIT_FILE")) in
      let verifies =
        opts.hitl_audit_verify_on_start
        || is_set env (lit "DEEPAGENT_HITL_AUDIT_VERIFY_ON_START") in
      let made =
        verified_logger (chain_error verifies (parts.verify path)) (parts.open_logger path) in
      if opts.has_audit_logger then ok true else if is_empty path then ok false else made

  abbrev pub connected : Result ChatModel → Result (Llm W)
  connected (err e) = err e
  connected (ok m) = ok (parts.connect m)

  abbrev pub llm_of : ModelOptions → Option (Llm W) → Result (Llm W)
  llm_of opts (some llm) = ok llm
  llm_of opts none = connected (build_default_llm parts.lower opts env)

  -- `buildGraph` and what is set after it
  unfoldable pub graph_of : Options W → List (Tool W) → Llm W → Bool → Graph W
  unfolding graph_tools get_all_skills_context
  graph_of opts built_in llm has_audit =
      let checkpointer = get_or parts.file_checkpointer opts.checkpointer in
      record {
        invoke = llm;
        tools = graph_tools opts.tools built_in;
        prompt = opts.system_prompt ++ (lit "\n\n" ++ get_all_skills_context parts.skills);
        load = checkpointer.load;
        save = checkpointer.save;
        put = get_or parts.file_memory opts.memory;
        config = opts.hitl_config;
        approver = get_or parts.console opts.hitl_approver;
        has_event_sink = false;
        has_audit = has_audit;
        include_args =
            opts.hitl_audit_include_args || is_set env (lit "DEEPAGENT_HITL_AUDIT_INCLUDE_ARGS");
        validate = parts.validate;
        decode_args = parts.decode_args;
        decode = parts.decode;
        encode = parts.encode;
        hash = parts.hash;
        now = parts.now;
      }

  abbrev pub with_audit : Options W → List (Tool W) → Llm W → Result Bool → Result (Graph W)
  with_audit opts built_in llm (err e) = err e
  with_audit opts built_in llm (ok has_audit) = ok (graph_of opts built_in llm has_audit)

  abbrev pub with_llm : Options W → List (Tool W) → Result (Llm W) → Result (Graph W)
  with_llm opts built_in (err e) = err e
  with_llm opts built_in (ok llm) = with_audit opts built_in llm (start_audit opts)

  unfoldable pub create_deep_agent : Options W → List (Tool W) → Result (Graph W)
  unfolding start_audit graph_of build_default_llm
  create_deep_agent opts built_in = with_llm opts built_in (llm_of opts.model_options opts.llm)
