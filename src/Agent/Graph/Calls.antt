-- ===== src/Agent/Graph/Calls.antt =====
-- agent/graph.go: the body of the loop over the model's tool calls, with the human in the loop.
use deepagent.Base.{◌+◌, Bool, true, false, Option, none, some, List, [], ◌∷◌, if◌then◌else◌}
use deepagent.Base.Text.{Str, lit}
use deepagent.Llms.Schema.{generate_parameters_schema}
use deepagent.Tools.Value.{Value}
use deepagent.Agent.Types.{
  Result, ok, err, ToolCall, ToolResult, Event, ApprovalRequest, Action, tool_code_hitl_rejected,
  tool_code_execution_error,
}
use deepagent.Agent.Graph.{
  Tool, Graph, Run, lookup, should_interrupt, format_tool_message, audit_args_payload, act, emit,
  log_hitl_audit, append_message,
}

abbrev pub is_err {ℓ} : {A : Type ℓ} → Result A → Bool
is_err (ok _) = false
is_err (err _) = true

unfoldable pub tool_result : ToolCall → Result Value → ToolResult
tool_result tc (ok value) = record {
  tool = tc.name;
  tool_call_id = tc.id;
  is_ok = true;
  result = some value;
  error = [];
  code = [];
}
tool_result tc (err e) = record {
  tool = tc.name;
  tool_call_id = tc.id;
  is_ok = false;
  result = none;
  error = e;
  code = tool_code_execution_error;
}

module _ {W : Type 0} (g : Graph W) where
  -- One call by the model, in the run with this thread and request.
  module _ (thread request : Str) where
    -- the event and the audit entry of a decision
    unfoldable pub decided : ToolCall → Str → Bool → Str → Run W → Run W
    unfolding emit log_hitl_audit
    decided tc decision approved error r =
        log_hitl_audit g
          (record {
            event = lit "hitl_decision";
            tool = tc.name;
            tool_call_id = tc.id;
            thread_id = thread;
            request_id = request;
            iteration = r.state.iteration;
            arguments = none;
            args_hash = [];
            decision = decision;
            approved = approved;
            error = error;
          })
          (emit g
            (Event.hitl_decision tc.name tc.id decision approved error r.state.iteration thread
              request)
            r)

    -- the event and the audit entry of a request
    unfoldable pub requested : ToolCall → Run W → Run W
    unfolding emit log_hitl_audit audit_args_payload
    requested tc r =
        log_hitl_audit g
          (record {
            event = lit "hitl_request";
            tool = tc.name;
            tool_call_id = tc.id;
            thread_id = thread;
            request_id = request;
            iteration = r.state.iteration;
            arguments = audit_args_payload g tc.arguments;
            args_hash = g.hash tc.arguments;
            decision = [];
            approved = false;
            error = [];
          })
          (emit g (Event.hitl_request tc.name tc.id r.state.iteration thread request) r)

    -- `WaitForApproval`
    unfoldable pub wait_for_approval : ToolCall → Run W → (Str × Option Str) × Run W
    unfolding act
    wait_for_approval tc r =
        let question : ApprovalRequest = record {
          tool = tc.name;
          args = tc.arguments;
          thread_id = thread;
          request_id = request;
          tool_call_id = tc.id;
          iteration = r.state.iteration;
        } in
        let (answer, w) = g.approver question r.world in
        (answer, act g (Action.asked question answer.0 answer.1) (record r { world = w }))

    -- after a refusal: the decision, and the message that tells the model
    unfoldable pub rejected : ToolCall → Str → Str → Run W → Run W
    unfolding decided append_message format_tool_message
    rejected tc decision e r =
        append_message g
          (record {
            role = lit "tool";
            content = format_tool_message g (record {
              tool = tc.name;
              tool_call_id = tc.id;
              is_ok = false;
              result = none;
              error = e;
              code = tool_code_hitl_rejected;
            });
          })
          (decided tc decision false e (record r { tool_errors = r.tool_errors + 1 }))

    -- validation of the arguments, then `tool.Call`
    unfoldable pub call_tool : Tool W → ToolCall → Run W → Result Value × Run W
    unfolding act
    call_tool tool tc r =
        let args = g.decode_args tc.arguments in
        elim (g.validate (generate_parameters_schema tool.parameters) args) [
          | some e ↦ (err e, r)
          | none ↦
              let (result, w) = tool.call args r.world in
              (result, act g (Action.called tc.name tc.id args) (record r { world = w }))
        ]

    -- the counters, the log, the event, the message and the memory after a call
    unfoldable pub record_result : ToolCall → Result Value → Run W → Run W
    unfolding act emit append_message format_tool_message tool_result
    record_result tc result r0 =
        let counted = record r0 {
          tool_calls = r0.tool_calls + 1;
          tool_errors = if is_err result then r0.tool_errors + 1 else r0.tool_errors;
        } in
        let logged =
          act g (Action.logged_tool tc.name (g.decode_args tc.arguments) result) counted in
        let full = tool_result tc result in
        let bare = record full { result = none; error = []; code = [] } in
        let answered =
          append_message g (record { role = lit "tool"; content = format_tool_message g full })
            (emit g (Event.tool_result bare) logged) in
        act g (Action.remembered thread full)
          (record answered { world = g.put thread (lit "last_tool_result") full answered.world })

    unfoldable pub execute : Tool W → ToolCall → Run W → Run W
    unfolding call_tool record_result
    execute tool tc r = let (result, r') = call_tool tool tc r in record_result tc result r'

    -- what follows the approver's answer
    unfoldable pub resume : Tool W → ToolCall → (Str × Option Str) × Run W → Run W
    unfolding rejected decided execute
    resume tool tc ((decision, some e), r) = rejected tc decision e r
    resume tool tc ((decision, none), r) = execute tool tc (decided tc decision true [] r)

    -- the body of the loop over the tool calls, once the tool is looked up: an unknown name is
    -- passed over
    unfoldable pub dispatch : Option (Tool W) → ToolCall → Run W → Run W
    unfolding emit requested wait_for_approval resume execute should_interrupt
    dispatch none tc r = r
    dispatch (some tool) tc r =
        let shown = emit g (Event.tool_call tc.name tc.arguments r.state.iteration) r in
        if should_interrupt g.config tc.name
        then resume tool tc (wait_for_approval tc (requested tc shown))
        else execute tool tc shown

    unfoldable pub handle_call : ToolCall → Run W → Run W
    unfolding dispatch
    handle_call tc r = dispatch (lookup g.tools tc.name) tc r

    unfoldable pub handle_calls : List ToolCall → Run W → Run W
    unfolding handle_call
    handle_calls [] r = r
    handle_calls (tc ∷ tcs) r = handle_calls tcs (handle_call tc r)
