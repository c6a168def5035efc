-- ===== src/Agent/Create/Quiet.antt =====
-- agent/deepagent.go: what an agent keeps whose parts start no program but in the sandbox.
use mathlib.Core.Path.{subst}
use deepagent.Base.{◌≡◌, refl, sym, ◌⊎◌, Bool, some, List, [], ◌∷◌, All}
use deepagent.Base.Text.{Str}
use deepagent.Tools.Value.{Args}
use deepagent.Tools.Files.Keeps.{
  BackendKeeps, ls-Keeps, read_file-Keeps, write_file-Keeps, edit_file-Keeps,
}
use deepagent.Tools.Wrapping.{new_tool_with_parameters}
use deepagent.Tools.Sandbox.{Exec, Shell}
use deepagent.Tools.Sandbox.Confined.{IsPermitted}
use deepagent.Tools.Toolbox.Execute.{execute_tool-Kept}
use deepagent.Agent.Types.{
  Result, ok, err, Message, ToolSpec, ToolResult, State, ApprovalRequest, Input, Output, AgentError,
}
use deepagent.Agent.Graph.{Tool, Graph, Run}
use deepagent.Agent.Graph.Keeps.{CallKeeps, Keeps, run-Keeps}
use deepagent.Agent.Graph.Turns.{run}
use deepagent.Agent.Subagent.Keeps.{task-Keeps}
use deepagent.Agent.Construction.{Env}
use deepagent.Agent.Construction.Keeps.{graph_tools-AllKeep}
use deepagent.Agent.Create.{
  Options, Parts, Llm, get_or, llm_of, with_llm, with_audit, start_audit, graph_of,
  create_deep_agent,
}
use deepagent.Agent.Create.Toolkit.{Toolkit, files_of, sandbox, built_in_tools}

-- An agent that is created has the graph of a model that was made.
create-graph :
    {W : Type 0} (parts : Parts W) (env : Env) (opts : Options W) (built_in : List (Tool W))
    (g : Graph W)
    → create_deep_agent parts env opts built_in ≡ ok g
    → (llm : Llm W) × (has_audit : Bool) × (llm_of parts env opts.model_options opts.llm ≡ ok llm)
      × (graph_of parts env opts built_in llm has_audit ≡ g)
unfolding create_deep_agent
create-graph parts env opts built_in g h = model _ h
  where
    audit :
        (llm : Llm _) (o : Result Bool)
        → with_audit parts env opts built_in llm o ≡ ok g
        → (has_audit : Bool) × (graph_of parts env opts built_in llm has_audit ≡ g)
    audit llm (err e) h = cc
    audit llm (ok b) h = (b, cc)

    model :
        (o : Result (Llm _))
        → with_llm parts env opts built_in o ≡ ok g
        → (llm : Llm _) × (has_audit : Bool) × (o ≡ ok llm)
          × (graph_of parts env opts built_in llm has_audit ≡ g)
    model (err e) h = cc
    model (ok llm) h =
        let (b, same) = audit llm (start_audit parts env opts) h in (llm, b, refl, same)

-- A function of the shell starts no program.
abbrev pub LeavesRan : {W : Type 0} → (Shell W → Shell W) → Type 0
LeavesRan {W} f = (s : Shell W) → (f s).ran ≡ s.ran

module _ {W : Type 0} (kit : Toolkit W) (parts : Parts (Shell W)) (env : Env)
    (opts : Options (Shell W)) where
  -- Besides the `execute` tool nothing starts a program: not the model, the checkpointer, the memory,
  -- the approver, the tools of the user and the backend.
  pub record IsQuiet : Type 0 where
    pub model :
        (llm : Llm (Shell W)) (messages : List Message) (specs : List ToolSpec)
        → llm_of parts env opts.model_options opts.llm ≡ ok llm
        → LeavesRan (λ s. (llm messages specs s).1)
    pub load :
        (thread : Str)
        → LeavesRan (λ s. ((get_or parts.file_checkpointer opts.checkpointer).load thread s).1)
    pub save :
        (thread : Str) (state : State)
        → LeavesRan ((get_or parts.file_checkpointer opts.checkpointer).save thread state)
    pub put :
        (thread key : Str) (result : ToolResult)
        → LeavesRan (get_or parts.file_memory opts.memory thread key result)
    pub approver :
        (question : ApprovalRequest)
        → LeavesRan (λ s. (get_or parts.console opts.hitl_approver question s).1)
    pub tools :
        All (λ (t : Tool (Shell W)). (args : Args) → LeavesRan (λ s. (t.call args s).1)) opts.tools
    pub write :
        (path content : Str) → LeavesRan (λ s. ((files_of kit kit.backend).write path content s).1)
    pub edit :
        (path instructions : Str)
        → LeavesRan (λ s. ((files_of kit kit.backend).edit path instructions s).1)
    pub new_write : (path content : Str) → LeavesRan (λ s. (kit.in_memory.write path content s).1)
    pub new_edit :
        (path instructions : Str) → LeavesRan (λ s. (kit.in_memory.edit path instructions s).1)

  -- What an agent lets run is in `P`, where `P` has what its sandbox permits.
  module _ (P : Exec → Type 0)
      (permits : (e : Exec) → IsPermitted kit.host (sandbox kit).config e → P e) where
    abbrev Within : Shell W → Type 0
    Within s = All P s.ran

    still : (f : Shell W → Shell W) → LeavesRan f → (s : Shell W) → Within s → Within (f s)
    still f leaves s h = subst (λ (ran : List Exec). All P ran) (sym (leaves s)) h

    user-Keeps :
        (ts : List (Tool (Shell W)))
        → All (λ (t : Tool (Shell W)). (args : Args) → LeavesRan (λ s. (t.call args s).1)) ts
        → All (CallKeeps Within) ts
    user-Keeps [] h = tt
    user-Keeps (t ∷ ts) (this, others) =
        ((λ args. still (λ s. (t.call args s).1) (this args)), user-Keeps ts others)

    module _ (q : IsQuiet)
        (sub_agents : (prompt description : Str) (s : Shell W)
          → Within s
          → Within (kit.run_agent prompt description s).1) where
      backend-Keeps : BackendKeeps Within (files_of kit kit.backend)
      backend-Keeps = record {
        write = λ path content.
            still (λ s. ((files_of kit kit.backend).write path content s).1) (q.write path content);
        edit = λ path instructions.
            still (λ s. ((files_of kit kit.backend).edit path instructions s).1)
              (q.edit path instructions);
      }

      built_in-Keeps : All (CallKeeps Within) (built_in_tools kit)
      unfolding built_in_tools new_tool_with_parameters
      built_in-Keeps =
          let b = files_of kit kit.backend in
          (
            (λ args s k. k),
            (
              task-Keeps Within kit.unicode b kit.quote kit.run_agent kit.value_of backend-Keeps
                  sub_agents,
              (
                ls-Keeps Within b,
                (
                  read_file-Keeps Within b,
                  (
                    write_file-Keeps Within b backend-Keeps,
                    (
                      edit_file-Keeps Within b backend-Keeps,
                      (
                        (λ args s k. k),
                        (execute_tool-Kept kit.host (sandbox kit).config P permits, tt),
                      ),
                    ),
                  ),
                ),
              ),
            ),
          )

      graph-Keeps :
          (llm : Llm (Shell W)) (has_audit : Bool)
          → llm_of parts env opts.model_options opts.llm ≡ ok llm
          → Keeps Within (graph_of parts env opts (built_in_tools kit) llm has_audit)
      unfolding graph_of
      graph-Keeps llm has_audit made =
          let checkpointer = get_or parts.file_checkpointer opts.checkpointer in
          record {
            invoke = λ messages specs.
                still (λ s. (llm messages specs s).1) (λ s. q.model llm messages specs made s);
            load = λ thread. still (λ s. (checkpointer.load thread s).1) (q.load thread);
            save = λ thread state. still (checkpointer.save thread state) (q.save thread state);
            put = λ thread key result.
                still (get_or parts.file_memory opts.memory thread key result)
                  (q.put thread key result);
            approver = λ question.
                still (λ s. (get_or parts.console opts.hitl_approver question s).1)
                  (q.approver question);
            tools =
                graph_tools-AllKeep Within opts.tools (built_in_tools kit)
                  (user-Keeps opts.tools q.tools) built_in-Keeps;
          }

      pub created-Keeps :
          (g : Graph (Shell W)) (input : Input) (s : Shell W) (out : Output ⊎ AgentError)
          (r : Run (Shell W))
          → create_deep_agent parts env opts (built_in_tools kit) ≡ ok g
          → Within s
          → run g input s ≡ some (out, r)
          → Within r.world
      created-Keeps g input s out r created h ran =
          let (llm, has_audit, made, same) =
            create-graph parts env opts (built_in_tools kit) g created in
          run-Keeps Within g (subst (Keeps Within) same (graph-Keeps llm has_audit made)) input s
            out r h ran
