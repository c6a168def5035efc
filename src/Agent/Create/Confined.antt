-- ===== src/Agent/Create/Confined.antt =====
-- agent/deepagent.go, agent/graph.go and tools/builtin/sandbox.go: what an agent lets run.
mod Tests
use mathlib.Core.Path.{subst}
use deepagent.Base.{
  ℕ, zero, suc, ◌≡◌, refl, sym, ◌⊎◌, inl, inr, Bool, Option, none, some, List, [], ◌∷◌, All,
  if◌then◌else◌,
}
use deepagent.Base.Text.{Str}
use deepagent.Tools.Value.{Args}
use deepagent.Tools.Files.{Backend}
use deepagent.Tools.Files.Keeps.{
  BackendKeeps, ls-Keeps, read_file-Keeps, write_file-Keeps, edit_file-Keeps,
}
use deepagent.Tools.Wrapping.{new_tool_with_parameters}
use deepagent.Tools.Sandbox.{ExecuteConfig, Exec, Shell}
use deepagent.Tools.Sandbox.Confined.{IsPermitted}
use deepagent.Tools.Toolbox.Execute.{execute_tool-Kept}
use deepagent.Agent.Types.{
  Result, ok, err, Message, ToolSpec, ToolResult, State, ApprovalRequest, Input, Output, AgentError,
}
use deepagent.Agent.Graph.{Tool, Graph, Run}
use deepagent.Agent.Graph.Keeps.{CallKeeps, Keeps, run-Keeps}
use deepagent.Agent.Graph.Turns.{run}
use deepagent.Agent.Subagent.Keeps.{task-Keeps}
use deepagent.Agent.Construction.{Env}
use deepagent.Agent.Construction.Keeps.{graph_tools-AllKeep}
use deepagent.Agent.Create.{
  Options, Parts, Llm, get_or, llm_of, with_llm, with_audit, start_audit, graph_of,
  create_deep_agent,
}
use deepagent.Agent.Create.Toolkit.{Toolkit, files_of, sandbox, built_in_tools}
use deepagent.Agent.Create.Spawn.{
  sub_options, sub_kit, sub_input, answer_of, invoked, sub_agent, spawning,
}
use deepagent.Agent.Create.Quiet.{IsQuiet, created-Keeps}

module _ {W : Type 0} (kit : Toolkit W) (parts : Parts (Shell W)) (env : Env)
    (opts : Options (Shell W)) (q : IsQuiet kit parts env opts) where
  -- The configuration of a sub-agent: its backend is a new one in memory, so it does not have the
  -- configuration of a backend that is a sandbox.
  abbrev pub sub_config : ExecuteConfig
  sub_config = (sandbox (sub_kit kit parts env opts (sub_agent kit parts env opts 0))).config

  -- Each command that ran is one that the sandbox of the agent or that of its sub-agents permits.
  abbrev pub IsAllowed : Exec → Type 0
  IsAllowed e = IsPermitted kit.host (sandbox kit).config e ⊎ IsPermitted kit.host sub_config e

  abbrev pub InSandboxes : Shell W → Type 0
  InSandboxes s = All IsAllowed s.ran

  sub_quiet :
      (run_agent : Str → Str → Shell W → Result Output × Shell W) (prompt : Str)
      → IsQuiet
          (sub_kit kit parts env opts run_agent)
          parts
          env
          (sub_options kit parts env opts prompt)
  sub_quiet run_agent prompt = record {
    model = q.model;
    load = q.load;
    save = q.save;
    put = q.put;
    approver = q.approver;
    tools = q.tools;
    write = q.new_write;
    edit = q.new_edit;
    new_write = q.new_write;
    new_edit = q.new_edit;
  }

  answered-InSandboxes :
      (s : Shell W) (result : Option ((Output ⊎ AgentError) × Run (Shell W)))
      → InSandboxes s
      → ((out : Output ⊎ AgentError) (r : Run (Shell W))
          → result ≡ some (out, r)
          → InSandboxes r.world)
      → InSandboxes (answer_of kit parts env opts s result).1
  answered-InSandboxes s none h runs = h
  answered-InSandboxes s (some (inl out, r)) h runs = runs (inl out) r refl
  answered-InSandboxes s (some (inr e, r)) h runs = runs (inr e) r refl

  invoked-InSandboxes :
      (made : Result (Graph (Shell W))) (description : Str) (s : Shell W)
      → InSandboxes s
      → ((g : Graph (Shell W)) (out : Output ⊎ AgentError) (r : Run (Shell W))
          → made ≡ ok g
          → run g (sub_input kit parts env opts description) s ≡ some (out, r)
          → InSandboxes r.world)
      → InSandboxes (invoked kit parts env opts made description s).1
  invoked-InSandboxes (err e) description s h runs = h
  invoked-InSandboxes (ok g) description s h runs =
      answered-InSandboxes s _ h (λ out r ran. runs g out r refl ran)

  -- Sub-agents of any depth stay in these sandboxes.
  sub_agent-InSandboxes :
      (depth : ℕ) (prompt description : Str) (s : Shell W)
      → InSandboxes s
      → InSandboxes (sub_agent kit parts env opts depth prompt description s).1
  unfolding sub_agent
  sub_agent-InSandboxes zero prompt description s h = h
  sub_agent-InSandboxes (suc depth) prompt description s h =
      let deeper = sub_agent kit parts env opts depth in
      invoked-InSandboxes _ description s h (λ g out r made ran.
        created-Keeps (sub_kit kit parts env opts deeper) parts env
          (sub_options kit parts env opts prompt) IsAllowed (λ e p. inr p) (sub_quiet deeper prompt)
          (sub_agent-InSandboxes depth) g (sub_input kit parts env opts description) s out r made h
          ran)

  top_quiet : (depth : ℕ) → IsQuiet (spawning kit parts env opts depth) parts env opts
  top_quiet depth = record {
    model = q.model;
    load = q.load;
    save = q.save;
    put = q.put;
    approver = q.approver;
    tools = q.tools;
    write = q.write;
    edit = q.edit;
    new_write = q.new_write;
    new_edit = q.new_edit;
  }

  -- An agent of `CreateDeepAgent`, with sub-agents of any depth, whose parts other than the `execute`
  -- tool start no program: whatever the model says, a run starts, itself and through its sub-agents,
  -- nothing but what the configuration of its sandbox or that of its sub-agents permits.
  pub agent-IsConfined :
      (depth : ℕ) (g : Graph (Shell W)) (input : Input) (s : Shell W) (out : Output ⊎ AgentError)
      (r : Run (Shell W))
      → create_deep_agent parts env opts (built_in_tools (spawning kit parts env opts depth)) ≡ ok g
      → InSandboxes s
      → run g input s ≡ some (out, r)
      → InSandboxes r.world
  agent-IsConfined depth g input s out r created h ran =
      created-Keeps (spawning kit parts env opts depth) parts env opts IsAllowed (λ e p. inl p)
        (top_quiet depth) (sub_agent-InSandboxes depth) g input s out r created h ran
