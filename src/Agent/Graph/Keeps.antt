-- ===== src/Agent/Graph/Keeps.antt =====
-- agent/graph.go: what all the parts that a graph calls keep of the world, a run keeps.
use mathlib.Core.Path.{subst}
use mathlib.Core.Option.{some-injective}
use deepagent.Base.{
  ◌≡◌, refl, ◌⊎◌, inl, inr, Bool, true, Option, none, some, List, [], ◌∷◌, All, arith, Bool-cases,
}
use deepagent.Base.Text.{Str, str_eq}
use deepagent.Tools.Value.{Value, Args}
use deepagent.Agent.Types.{
  Result, ok, err, Message, ToolSpec, Input, ToolCall, ToolResult, State, ApprovalRequest, Output,
  AgentError,
}
use deepagent.Agent.Graph.{Tool, Graph, Run, lookup, should_interrupt, emit}
use deepagent.Agent.Graph.Calls.{
  decided, requested, wait_for_approval, rejected, call_tool, record_result, execute, resume,
  dispatch, handle_call, handle_calls,
}
use deepagent.Agent.Graph.Rules.{AfterTurn, run_rule}
use deepagent.Agent.Graph.Turns.{
  call_model, say, save_state, finish, continue_turn, take_turn, conclude, run,
}

module _ {W : Type 0} (P : W → Type 0) where
  -- A call of the tool keeps the property.
  abbrev pub CallKeeps : Tool W → Type 0
  CallKeeps tool = (args : Args) (w : W) → P w → P (tool.call args w).1

  -- Every part that the graph calls keeps it.
  pub record Keeps (g : Graph W) : Type 0 where
    pub invoke :
        (messages : List Message) (specs : List ToolSpec) (w : W)
        → P w
        → P (g.invoke messages specs w).1
    pub load : (thread : Str) (w : W) → P w → P (g.load thread w).1
    pub save : (thread : Str) (s : State) (w : W) → P w → P (g.save thread s w)
    pub put : (thread key : Str) (result : ToolResult) (w : W) → P w → P (g.put thread key result w)
    pub approver : (question : ApprovalRequest) (w : W) → P w → P (g.approver question w).1
    pub tools : All (λ (entry : Str × Tool W). CallKeeps entry.1) g.tools

  lookup-CallKeeps :
      (tools : List (Str × Tool W)) (name : Str) {tool : Tool W}
      → All (λ (entry : Str × Tool W). CallKeeps entry.1) tools
      → lookup tools name ≡ some tool
      → CallKeeps tool
  unfolding lookup
  lookup-CallKeeps [] name h e = cc
  lookup-CallKeeps ((k, t) ∷ rest) name (this, others) e = elim (Bool-cases (str_eq k name)) [
    | inl same ↦ subst CallKeeps (some-injective _ _ (rw same at e)) this
    | inr other ↦ lookup-CallKeeps rest name others (rw other at e)
  ]

module _ {W : Type 0} (P : W → Type 0) (g : Graph W) (k : Keeps P g) (thread request : Str) where
  abbrev Safe : Run W → Type 0
  Safe r = P r.world

  emit-Safe : (e : _) (r : Run W) → Safe r → Safe (emit g e r)
  unfolding emit
  emit-Safe e r h = ground arith

  decided-Safe :
      (tc : ToolCall) (decision : Str) (b : Bool) (e : Str) (r : Run W)
      → Safe r
      → Safe (decided g thread request tc decision b e r)
  unfolding decided
  decided-Safe tc decision b e r h = ground arith

  rejected-Safe :
      (tc : ToolCall) (decision e : Str) (r : Run W)
      → Safe r
      → Safe (rejected g thread request tc decision e r)
  unfolding rejected
  rejected-Safe tc decision e r h = ground arith

  call_tool-Safe :
      (tool : Tool W) (tc : ToolCall) (r : Run W)
      → CallKeeps P tool
      → Safe r
      → Safe (call_tool g thread request tool tc r).1
  unfolding call_tool
  call_tool-Safe tool tc r keeps h = ground (arith, keeps (g.decode_args tc.arguments) r.world)

  record_result-Safe :
      (tc : ToolCall) (result : Result Value) (r : Run W)
      → Safe r
      → Safe (record_result g thread request tc result r)
  unfolding record_result
  record_result-Safe tc result r h = k.put thread _ _ _ (emit-Safe _ _ h)

  execute-Safe :
      (tool : Tool W) (tc : ToolCall) (r : Run W)
      → CallKeeps P tool
      → Safe r
      → Safe (execute g thread request tool tc r)
  unfolding execute
  execute-Safe tool tc r keeps h =
      let (result, r') = call_tool g thread request tool tc r in
      record_result-Safe tc result r' (call_tool-Safe tool tc r keeps h)

  resume-Safe :
      (tool : Tool W) (tc : ToolCall) (answer : Str × Option Str) (r : Run W)
      → CallKeeps P tool
      → Safe r
      → Safe (resume g thread request tool tc (answer, r))
  unfolding resume
  resume-Safe tool tc (decision, some e) r keeps h = rejected-Safe tc decision e r h
  resume-Safe tool tc (decision, none) r keeps h =
      execute-Safe tool tc _ keeps (decided-Safe tc decision true [] r h)

  requested-Safe : (tc : ToolCall) (r : Run W) → Safe r → Safe (requested g thread request tc r)
  unfolding requested
  requested-Safe tc r h = ground arith

  approval-Safe :
      (tool : Tool W) (tc : ToolCall) (r : Run W)
      → CallKeeps P tool
      → Safe r
      → Safe (resume g thread request tool tc (wait_for_approval g thread request tc r))
  unfolding wait_for_approval
  approval-Safe tool tc r keeps h = resume-Safe tool tc _ _ keeps (k.approver _ r.world h)

  dispatch-Safe :
      (found : Option (Tool W)) (tc : ToolCall) (r : Run W)
      → ((tool : Tool W) → found ≡ some tool → CallKeeps P tool)
      → Safe r
      → Safe (dispatch g thread request found tc r)
  unfolding dispatch
  dispatch-Safe none tc r keeps h = h
  dispatch-Safe (some tool) tc r keeps h = elim (Bool-cases (should_interrupt g.config tc.name)) [
    | inl asks ↦
        rw asks (approval-Safe tool tc _ (keeps tool refl) (requested-Safe tc _ (emit-Safe _ r h)))
    | inr free ↦ rw free (execute-Safe tool tc _ (keeps tool refl) (emit-Safe _ r h))
  ]

  handle_calls-Safe :
      (tcs : List ToolCall) (r : Run W) → Safe r → Safe (handle_calls g thread request tcs r)
  unfolding handle_calls handle_call
  handle_calls-Safe [] r h = h
  handle_calls-Safe (tc ∷ tcs) r h =
      handle_calls-Safe tcs (handle_call g thread request tc r)
        (dispatch-Safe _ tc r (λ tool found. lookup-CallKeeps P g.tools tc.name k.tools found) h)

  call_model-Safe : (r : Run W) → Safe r → Safe (call_model g thread request r).1
  unfolding call_model
  call_model-Safe r h = emit-Safe _ _ (k.invoke _ _ r.world h)

  say-Safe : (content : Str) (r : Run W) → Safe r → Safe (say g thread request content r)
  unfolding say
  say-Safe content r h = ground arith

  finish-Safe : (content : Str) (r : Run W) → Safe r → Safe (finish g thread request content r).1
  unfolding finish save_state
  finish-Safe content r h = emit-Safe _ _ (k.save thread _ _ (say-Safe content r h))

  take_turn-Safe :
      (reply : Result (Str × List ToolCall)) (r : Run W)
      → Safe r
      → AfterTurn Safe (λ _ r'. Safe r') (take_turn g thread request (reply, r))
  unfolding take_turn continue_turn save_state
  take_turn-Safe (err e) r h = h
  take_turn-Safe (ok (c ∷ content, [])) r h = finish-Safe (c ∷ content) r h
  take_turn-Safe (ok (content, tcs)) r h =
      k.save thread _ _ (handle_calls-Safe tcs _ (say-Safe content r h))

  conclude-Safe :
      (d : (Output ⊎ AgentError) × Run W) → Safe d.1 → Safe (conclude g thread request d).1
  unfolding conclude
  conclude-Safe (inl out, r) h = h
  conclude-Safe (inr e, r) h = emit-Safe _ _ h

-- A property of the world that the model, the tools, the approver, the checkpointer and the memory
-- keep holds after a run that starts where it holds.
pub run-Keeps :
    {W : Type 0} (P : W → Type 0) (g : Graph W) (k : Keeps P g) (input : Input) (w : W)
    (out : Output ⊎ AgentError) (r : Run W)
    → P w
    → run g input w ≡ some (out, r)
    → P r.world
run-Keeps {W} P g k input w out r h =
    let thread = input.thread_id in
    let Safe = λ (r : Run W). P r.world in
    run_rule g input w Safe (λ _ r. P r.world) (λ _ r. P r.world)
      (λ r _ h. take_turn-Safe P g k thread _ _ _ (call_model-Safe P g k thread _ r h)) (λ r _ h. h)
      (λ d h. conclude-Safe P g k thread _ d h) (λ e _. k.load thread w h)
      (λ o _. k.load thread w h)
