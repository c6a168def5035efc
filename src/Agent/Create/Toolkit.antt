-- ===== src/Agent/Create/Toolkit.antt =====
-- agent/deepagent.go and agent/subagent.go: the built-in tools of an agent. The world is a shell:
-- what has run stands beside the rest.
use deepagent.Base.{Option, List, [], ◌∷◌, ◌++◌}
use deepagent.Base.Text.{Str, lit}
use deepagent.Tools.Value.{Value}
use deepagent.Tools.Files.{Backend}
use deepagent.Tools.Builtin.{Skills}
use deepagent.Tools.Wrapping.{new_tool_with_parameters}
use deepagent.Tools.Sandbox.{ExecuteConfig, Host, Shell}
use deepagent.Tools.Sandbox.Inner.{
  AnyBackend, plain, sandboxed, SandboxBackend, as_backend, sandbox_for,
}
use deepagent.Tools.Toolbox.{
  text_schema, new_write_todos_tool, new_load_skills_tool, new_ls_tool, new_read_file_tool,
  new_write_file_tool, new_edit_file_tool,
}
use deepagent.Tools.Toolbox.Execute.{new_execute_tool}
use deepagent.Agent.Types.{Result, Output}
use deepagent.Agent.Graph.{Tool}
use deepagent.Agent.Subagent.{Unicode, task}

-- What the built-in tools are made of: the backend and `ExecuteConfig` of the options, the defaults
-- of a new backend in memory and of the configuration, the skills, and for `task` the run of a
-- sub-agent with its prompt.
pub record Toolkit (W : Type 0) : Type 0 where
  pub host : Host W
  pub backend : AnyBackend (Shell W)
  pub config : Option ExecuteConfig
  pub in_memory : Backend (Shell W)
  pub standard : ExecuteConfig
  pub skills : Skills
  pub unicode : Unicode
  pub quote : Str → Str
  pub run_agent : Str → Str → Shell W → Result Output × Shell W
  pub value_of : Output → Value

module _ {W : Type 0} (kit : Toolkit W) where
  -- `opts.Backend` as a backend
  abbrev pub files_of : AnyBackend (Shell W) → Backend (Shell W)
  files_of (plain b) = b
  files_of (sandboxed s) = as_backend s

  -- the sandbox of the `execute` tool
  abbrev pub sandbox : SandboxBackend (Shell W)
  sandbox = sandbox_for kit.in_memory kit.standard kit.backend kit.config

  abbrev pub new_task_tool : Tool (Shell W)
  new_task_tool =
      new_tool_with_parameters (lit "task")
        (lit "Spawn a subagent for a subtask. Results will be automatically merged into parent "
          ++ lit "filesystem.")
        (text_schema (lit "description" ∷ []) (lit "description" ∷ []))
        (task kit.unicode (files_of kit.backend) kit.quote kit.run_agent kit.value_of)

  -- the tools that `CreateDeepAgent` appends
  unfoldable pub built_in_tools : List (Tool (Shell W))
  built_in_tools =
      let b = files_of kit.backend in
      new_write_todos_tool
      ∷ new_task_tool
      ∷ new_ls_tool b
      ∷ new_read_file_tool b
      ∷ new_write_file_tool b
      ∷ new_edit_file_tool b
      ∷ new_load_skills_tool kit.skills
      ∷ new_execute_tool kit.host sandbox
      ∷ []
