-- ===== src/Agent/Create/Spawn.antt =====
-- agent/subagent.go with agent/deepagent.go: the sub-agents that the `task` tool makes of the options of
-- its agent. They can have sub-agents in turn, here down to a depth.
use deepagent.Base.{ℕ, zero, suc, ◌⊎◌, inl, inr, Bool, false, Option, none, some, [], ◌∷◌}
use deepagent.Base.Text.{Str, lit}
use deepagent.Tools.Sandbox.{Shell}
use deepagent.Tools.Sandbox.Inner.{plain}
use deepagent.Agent.Types.{Result, ok, err, Input, Output, AgentError}
use deepagent.Agent.Graph.{Graph, Run, error_text}
use deepagent.Agent.Graph.Turns.{run}
use deepagent.Agent.Construction.{Env}
use deepagent.Agent.Create.{Options, Parts, start_audit, create_deep_agent}
use deepagent.Agent.Create.Toolkit.{Toolkit, built_in_tools}

abbrev has_logger : Result Bool → Bool
has_logger (ok b) = b
has_logger (err e) = false

module _ {W : Type 0} (kit : Toolkit W) (parts : Parts (Shell W)) (env : Env)
    (opts : Options (Shell W)) where
  -- `subOpts`: the options of the agent, which has set its defaults in them, with another prompt and
  -- a new backend in memory
  abbrev pub sub_options : Str → Options (Shell W)
  sub_options prompt = record opts {
    system_prompt = prompt;
    has_audit_logger = has_logger (start_audit parts env opts);
  }

  abbrev pub sub_kit : (Str → Str → Shell W → Result Output × Shell W) → Toolkit W
  sub_kit run_agent = record kit { backend = plain kit.in_memory; run_agent = run_agent }

  abbrev pub sub_input : Str → Input
  sub_input description = record {
    messages = record { role = lit "user"; content = description } ∷ [];
    thread_id = [];
  }

  abbrev pub answer_of :
      Shell W → Option ((Output ⊎ AgentError) × Run (Shell W)) → Result Output × Shell W
  answer_of s none = (err (lit "out of fuel"), s)
  answer_of s (some (inl out, r)) = (ok out, r.world)
  answer_of s (some (inr e, r)) = (err (error_text e), r.world)

  abbrev pub invoked : Result (Graph (Shell W)) → Str → Shell W → Result Output × Shell W
  invoked (err e) description s = (err e, s)
  invoked (ok g) description s = answer_of s (run g (sub_input description) s)

  -- `CreateDeepAgent(subOpts)` and its `Invoke`, with sub-agents down to a depth
  unfoldable pub sub_agent : ℕ → Str → Str → Shell W → Result Output × Shell W
  unfolding create_deep_agent built_in_tools run
  sub_agent zero prompt description s = (err (lit "too deep"), s)
  sub_agent (suc depth) prompt description s =
      invoked
        (create_deep_agent parts env (sub_options prompt)
          (built_in_tools (sub_kit (sub_agent depth))))
        description s

  -- The toolkit of the agent, with these sub-agents.
  abbrev pub spawning : ℕ → Toolkit W
  spawning depth = record kit { run_agent = sub_agent depth }
