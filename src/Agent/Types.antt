-- ===== src/Agent/Types.antt =====
-- agent/types.go, agent/error_codes.go and llms/llm.go: messages, the conversation state, errors,
-- events, and what a run does to its surroundings.
use deepagent.Base.{ℕ, Option, Bool, List}
use deepagent.Base.Text.{Str, lit}
use deepagent.Tools.Value.{Value, Args}

-- The result of a call that may fail; the error is its text.
pub data Result {ℓ} (A : Type ℓ) : Type ℓ where
  ok : A → Result A
  err : Str → Result A

pub record Message : Type 0 where
  pub role : Str
  pub content : Str

pub record Input : Type 0 where
  pub messages : List Message
  pub thread_id : Str

pub record ToolCall : Type 0 where
  pub id : Str
  pub name : Str
  pub arguments : Str

pub record ToolSpec : Type 0 where
  pub name : Str
  pub description : Str
  pub parameters : Value

pub record ToolResult : Type 0 where
  pub tool : Str
  pub tool_call_id : Str
  pub is_ok : Bool
  pub result : Option Value
  pub error : Str
  pub code : Str

-- `Iteration` is taken not to be negative, since no code writes a negative one; `ToolCalls`, which no
-- code reads, has the JSON of its values.
pub record State : Type 0 where
  pub messages : List Message
  pub tool_calls : List Str
  pub thread_id : Str
  pub iteration : ℕ
  pub final : Str

-- The codes of an `AgentError`.
pub data Code : Type 0 where
  checkpoint_load llm_invoke max_iterations : Code

pub record AgentError : Type 0 where
  pub code : Code
  pub message : Str
  pub thread_id : Str
  pub request_id : Str
  pub cause : Str

-- The `Output` map.
pub record Output : Type 0 where
  pub messages : List Message
  pub final : Str
  pub thread_id : Str
  pub request_id : Str

-- What `AgentError.Payload` holds is the error without its cause.
pub data Event : Type 0 where
  model_call : (iteration : ℕ) (failed : Bool) → Event
  message : (role content : Str) (iteration : ℕ) → Event
  tool_call : (tool arguments : Str) (iteration : ℕ) → Event
  hitl_request : (tool tool_call_id : Str) (iteration : ℕ) (thread request : Str) → Event
  hitl_decision :
      (tool tool_call_id decision : Str) (approved : Bool) (error : Str) (iteration : ℕ)
      (thread request : Str)
      → Event
  tool_result : ToolResult → Event
  final : Output → Event
  error : (code : Code) (message thread request : Str) → Event

-- What `logHITLAudit` is given; the time stamp and the hashes are set by the logger.
pub record AuditEntry : Type 0 where
  pub event : Str
  pub tool : Str
  pub tool_call_id : Str
  pub thread_id : Str
  pub request_id : Str
  pub iteration : ℕ
  pub arguments : Option Value
  pub args_hash : Str
  pub decision : Str
  pub approved : Bool
  pub error : Str

pub record RunSummary : Type 0 where
  pub thread_id : Str
  pub request_id : Str
  pub iterations : ℕ
  pub model_calls : ℕ
  pub model_errors : ℕ
  pub tool_calls : ℕ
  pub tool_errors : ℕ
  pub error : Str

-- What the approver is told: `approvalMetadata` with the tool and its raw arguments.
pub record ApprovalRequest : Type 0 where
  pub tool : Str
  pub args : Str
  pub thread_id : Str
  pub request_id : Str
  pub tool_call_id : Str
  pub iteration : ℕ

-- Each thing that a run does to its surroundings. Durations and time stamps are left out.
pub data Action : Type 0 where
  loaded : (thread : Str) → Action
  invoked : List Message → List ToolSpec → Action
  asked : ApprovalRequest → (decision : Str) (refusal : Option Str) → Action
  called : (tool tool_call_id : Str) → Args → Action
  remembered : (thread : Str) → ToolResult → Action
  saved : (thread : Str) → State → Action
  emitted : Event → Action
  audited : AuditEntry → Action
  logged_model : (messages tools : ℕ) (failure : Option Str) → Action
  logged_tool : (tool : Str) → Args → Result Value → Action
  logged_summary : RunSummary → Action

-- error_codes.go
abbrev pub tool_code_hitl_rejected : Str
tool_code_hitl_rejected = lit "hitl_rejected"

abbrev pub tool_code_execution_error : Str
tool_code_execution_error = lit "tool_execution_error"

abbrev pub tool_code_serialization : Str
tool_code_serialization = lit "serialization_error"
