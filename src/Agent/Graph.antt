-- ===== src/Agent/Graph.antt =====
-- agent/graph.go: the graph, and the helpers of `Graph.Run`. A run is a state that carries the conversation, the
-- counters, the world outside, and the actions done so far, newest first.
pub mod Calls
pub mod Turns
pub mod Rules
pub mod Approval
pub mod Accounts
pub mod Answers
pub mod Outcome
pub mod Termination
pub mod Trail
pub mod Keeps
pub mod Continuity
mod Tests
use deepagent.Base.{
  ℕ, zero, suc, ◌+◌, ◌⊎◌, inl, inr, Bool, true, false, Option, none, some, List, [], ◌∷◌, ◌++◌, map,
  ltb, ◌==◌, if◌then◌else◌, length,
}
use deepagent.Base.Text.{Str, lit, str_eq, is_empty}
use mathlib.Core.Option
use deepagent.Llms.Schema.{generate_parameters_schema}
use deepagent.Tools.Value.{Value, Fields, Args}
use deepagent.Agent.Types.{
  Result, ok, err, Message, Input, ToolCall, ToolSpec, ToolResult, State, Code, checkpoint_load,
  llm_invoke, max_iterations, AgentError, Output, Event, AuditEntry, RunSummary, ApprovalRequest,
  Action, tool_code_hitl_rejected, tool_code_execution_error, tool_code_serialization,
}

-- A tool and the components that the graph calls are functions of the world, which they may change.
pub record Tool (W : Type 0) : Type 0 where
  pub name : Str
  pub description : Str
  pub parameters : Value
  pub call : Args → W → Result Value × W

pub record Graph (W : Type 0) : Type 0 where
  pub invoke : List Message → List ToolSpec → W → Result (Str × List ToolCall) × W
  pub tools : List (Str × Tool W)
  pub prompt : Str
  pub load : Str → W → Result (Option State) × W
  pub save : Str → State → W → W
  pub put : Str → Str → ToolResult → W → W
  -- the map of tools that wait for a human
  pub config : List (Str × Bool)
  pub approver : ApprovalRequest → W → (Str × Option Str) × W
  pub has_event_sink : Bool
  pub has_audit : Bool
  pub include_args : Bool
  -- `tools.ValidateAgainstJSONSchema`, one of two by the build tag
  pub validate : Fields → Args → Option Str
  -- `json.Unmarshal` into a map and into `any`, `json.Marshal` of a result, SHA-256, the clock
  pub decode_args : Str → Args
  pub decode : Str → Option Value
  pub encode : ToolResult → Result Str
  pub hash : Str → Str
  pub now : W → Str

pub record Run (W : Type 0) : Type 0 where
  pub world : W
  pub actions : List Action
  pub state : State
  -- the variables `iteration`, `modelCalls`, `modelErrors`, `toolCallCount` and `toolErrors`
  pub iteration : ℕ
  pub model_calls : ℕ
  pub model_errors : ℕ
  pub tool_calls : ℕ
  pub tool_errors : ℕ

unfoldable pub lookup {ℓ} : {A : Type ℓ} → List (Str × A) → Str → Option A
lookup [] key = none
lookup ((k, a) ∷ rest) key = if str_eq k key then some a else lookup rest key

-- `ShouldInterrupt`: a missing key reads as false.
unfoldable pub should_interrupt : List (Str × Bool) → Str → Bool
unfolding lookup
should_interrupt config name = elim (lookup config name) [ none ↦ false | some b ↦ b ]

-- `newRequestID`
unfoldable pub new_request_id : Str → Str → Str
new_request_id [] nanos = lit "run-" ++ nanos
new_request_id (c ∷ thread) nanos = (c ∷ thread) ++ lit "-" ++ nanos

abbrev pub code_text : Code → Str
code_text checkpoint_load = lit "checkpoint_load_error"
code_text llm_invoke = lit "llm_invoke_error"
code_text max_iterations = lit "max_iterations_reached"

-- `AgentError.Error`
unfoldable pub error_text : AgentError → Str
error_text e =
    if is_empty e.request_id
    then e.message ++ lit " (code=" ++ code_text e.code ++ lit ")"
    else e.message
      ++ lit " (code="
      ++ code_text e.code
      ++ lit " thread="
      ++ e.thread_id
      ++ lit " request="
      ++ e.request_id
      ++ lit ")"

-- `strings.ReplaceAll(s, "\"", "'")`
unfoldable pub replace_quotes : Str → Str
replace_quotes s = map (λ c. if c == 34 then 39 else c) s

module _ {W : Type 0} (g : Graph W) where
  unfoldable pub format_tool_message : ToolResult → Str
  unfolding replace_quotes
  format_tool_message result = elim (g.encode result) [
    | ok payload ↦ payload
    | err e ↦
        lit "{\"tool\":\""
        ++ result.tool
        ++ lit "\",\"ok\":false,\"error\":\""
        ++ replace_quotes e
        ++ lit "\",\"code\":\""
        ++ tool_code_serialization
        ++ lit "\"}"
  ]

  unfoldable pub convert_tools_to_llm_format : List (Str × Tool W) → List ToolSpec
  convert_tools_to_llm_format [] = []
  convert_tools_to_llm_format ((_, t) ∷ rest) =
      record { name = t.name; description = t.description; parameters = t.parameters }
      ∷ convert_tools_to_llm_format rest

  -- `auditArgsPayload`
  unfoldable pub audit_args_payload : Str → Option Value
  audit_args_payload raw =
      if g.include_args
      then elim (g.decode raw) [ some parsed ↦ some parsed | none ↦ some (Value.string raw) ]
      else none

  unfoldable pub act : Action → Run W → Run W
  act a r = record r { actions = a ∷ r.actions }

  unfoldable pub emit : Event → Run W → Run W
  unfolding act
  emit e r = if g.has_event_sink then act (Action.emitted e) r else r

  unfoldable pub log_hitl_audit : AuditEntry → Run W → Run W
  unfolding act
  log_hitl_audit e r = if g.has_audit then act (Action.audited e) r else r

  unfoldable pub append_message : Message → Run W → Run W
  append_message m r = record r { state = record r.state { messages = r.state.messages ++ m ∷ [] } }
