-- ===== src/Tools/Toolbox/Execute.antt =====
-- tools/builtin/execute.go: the `execute` tool on a sandbox, and what it lets run.
use deepagent.Base.{◌≡◌, refl, sym, subst, Option, none, some, [], ◌∷◌, Bool-cases, inl, inr, All}
use deepagent.Base.Text.{Str, lit, is_empty}
use deepagent.Tools.Value.{Args}
use deepagent.Agent.Graph.{Tool}
use deepagent.Tools.Builtin.{ran, execute_command}
use deepagent.Tools.Builtin
use deepagent.Tools.Wrapping.{new_tool_with_parameters}
use deepagent.Tools.Sandbox.{ExecuteConfig, Host, Exec, Shell}
use deepagent.Tools.Sandbox.Execute
use deepagent.Tools.Sandbox.Execute.{Executed, returned, panicked}
use deepagent.Tools.Sandbox.Confined.{IsPermitted, execute-Among}
use deepagent.Tools.Sandbox.Inner.{SandboxBackend}
use deepagent.Tools.Toolbox.{text_schema}

module _ {W : Type 0} (h : Host W) where
  -- The output as a text. `Execute` does not panic.
  abbrev pub as_text : Executed × Shell W → (Str × Option Str) × Shell W
  as_text (returned out e, s) = ((h.decode out, e), s)
  as_text (panicked, s) = (([], none), s)

  -- `sandbox.Execute`
  unfoldable pub sandbox_execute : ExecuteConfig → Str → Shell W → (Str × Option Str) × Shell W
  sandbox_execute c text s = as_text (Execute.execute h c text s)

  as_text-world : (r : Executed × Shell W) → (as_text r).1 ≡ r.1
  as_text-world (returned out e, s) = refl
  as_text-world (panicked, s) = refl

  module _ (c : ExecuteConfig) (P : Exec → Type 0)
      (permits : (e : Exec) → IsPermitted h c e → P e) where
    abbrev Kept : Shell W → Type 0
    Kept s = All P s.ran

    ran-Kept :
        (cmd : Str) (done : (Str × Option Str) × Shell W)
        → Kept done.1
        → Kept (ran (sandbox_execute c) cmd done).1
    ran-Kept cmd ((out, none), s) k = k
    ran-Kept cmd ((out, some e), s) k = k

    sandbox_execute-Kept : (cmd : Str) (s : Shell W) → Kept s → Kept (sandbox_execute c cmd s).1
    unfolding sandbox_execute
    sandbox_execute-Kept cmd s k =
        subst Kept (sym (as_text-world (Execute.execute h c cmd s)))
          (execute-Among h c P permits cmd s k)

    execute_command-Kept :
        (o : Option Str) (s : Shell W) → Kept s → Kept (execute_command (sandbox_execute c) o s).1
    execute_command-Kept none s k = k
    execute_command-Kept (some cmd) s k = elim (Bool-cases (is_empty cmd)) [
      | inl blank ↦ rw blank k
      | inr solid ↦ rw solid (ran-Kept cmd _ (sandbox_execute-Kept cmd s k))
    ]

    -- Whatever the arguments, a call of the `execute` tool starts nothing besides that the sandbox does not
    -- permit.
    pub execute_tool-Kept :
        (args : Args) (s : Shell W) → Kept s → Kept (Builtin.execute (sandbox_execute c) args s).1
    unfolding Builtin.execute
    execute_tool-Kept args s k = execute_command-Kept _ s k

-- `NewExecuteToolWithConfig`, on the sandbox that it has
abbrev pub new_execute_tool : {W : Type 0} → Host W → SandboxBackend (Shell W) → Tool (Shell W)
new_execute_tool h sandbox =
    new_tool_with_parameters (lit "execute")
      (lit "Execute a command in secure sandbox. Args: command (required)")
      (text_schema (lit "command" ∷ []) (lit "command" ∷ []))
      (Builtin.execute (sandbox_execute h sandbox.config))
