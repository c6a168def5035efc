-- ===== src/Agent/Graph/Trail.antt =====
-- agent/graph.go: the audit entries of a run are the questions to the human and their answers.
use deepagent.Base.{
  ◌≡◌, refl, ap, ◌⊎◌, Bool, true, false, Option, none, some, List, [], ◌∷◌, arith, Bool-cases,
  if◌then◌else◌, inl, inr,
}
use deepagent.Base.Text.{Str, lit}
use deepagent.Agent.Types.{
  Result, ok, err, Input, ToolCall, Output, AgentError, Action, AuditEntry, ApprovalRequest,
}
use deepagent.Agent.Graph.{Tool, Graph, Run, lookup, should_interrupt, emit, audit_args_payload}
use deepagent.Agent.Graph.Calls.{
  decided, requested, wait_for_approval, rejected, call_tool, record_result, execute, resume,
  dispatch, handle_call, handle_calls,
}
use deepagent.Agent.Graph.Rules.{AfterTurn, run_rule}
use deepagent.Agent.Graph.Turns.{
  call_model, say, save_state, finish, continue_turn, take_turn, conclude, run,
}

-- The audit entries among the actions, newest first.
abbrev pub entries_of : List Action → List AuditEntry
entries_of [] = []
entries_of (Action.audited e ∷ older) = e ∷ entries_of older
entries_of (_ ∷ older) = entries_of older

abbrev pub is_consent : Option Str → Bool
is_consent none = true
is_consent (some e) = false

abbrev pub reason_of : Option Str → Str
reason_of none = []
reason_of (some e) = e

module _ {W : Type 0} (g : Graph W) where
  -- What is to be written before a question is put to the human, and after it is answered.
  abbrev pub request_entry : ApprovalRequest → AuditEntry
  request_entry q = record {
    event = lit "hitl_request";
    tool = q.tool;
    tool_call_id = q.tool_call_id;
    thread_id = q.thread_id;
    request_id = q.request_id;
    iteration = q.iteration;
    arguments = audit_args_payload g q.args;
    args_hash = g.hash q.args;
    decision = [];
    approved = false;
    error = [];
  }

  abbrev pub decision_entry : ApprovalRequest → Str → Option Str → AuditEntry
  decision_entry q decision refusal = record {
    event = lit "hitl_decision";
    tool = q.tool;
    tool_call_id = q.tool_call_id;
    thread_id = q.thread_id;
    request_id = q.request_id;
    iteration = q.iteration;
    arguments = none;
    args_hash = [];
    decision = decision;
    approved = is_consent refusal;
    error = reason_of refusal;
  }

  -- The entries that the questions of a run call for, newest first.
  abbrev pub history : List Action → List AuditEntry
  history [] = []
  history (Action.asked q decision refusal ∷ older) =
      decision_entry q decision refusal ∷ request_entry q ∷ history older
  history (_ ∷ older) = history older

  abbrev Trail : Run W → Type 0
  Trail r = entries_of r.actions ≡ history r.actions

  emit-Trail : (e : _) (r : Run W) → Trail r → Trail (emit g e r)
  unfolding emit
  emit-Trail e r h = ground arith

  module _ (thread request : Str) where
    record_result-Trail :
        (tc : ToolCall) (result : Result _) (r : Run W)
        → Trail r
        → Trail (record_result g thread request tc result r)
    unfolding record_result
    record_result-Trail tc result r h = ground arith

    call_tool-Trail :
        (tool : Tool W) (tc : ToolCall) (r : Run W)
        → Trail r
        → Trail (call_tool g thread request tool tc r).1
    unfolding call_tool
    call_tool-Trail tool tc r h = ground arith

    execute-Trail :
        (tool : Tool W) (tc : ToolCall) (r : Run W)
        → Trail r
        → Trail (execute g thread request tool tc r)
    unfolding execute
    execute-Trail tool tc r h =
        let (result, r') = call_tool g thread request tool tc r in
        record_result-Trail tc result r' (call_tool-Trail tool tc r h)

    call_model-Trail : (r : Run W) → Trail r → Trail (call_model g thread request r).1
    unfolding call_model
    call_model-Trail r h = ground arith

    finish-Trail :
        (content : Str) (r : Run W) → Trail r → Trail (finish g thread request content r).1
    unfolding finish say save_state emit
    finish-Trail content r h = ground arith

    say-Trail : (content : Str) (r : Run W) → Trail r → Trail (say g thread request content r)
    unfolding say
    say-Trail content r h = ground arith

    module _ (audits : g.has_audit ≡ true) where
      -- the question that the approver is put about a call
      abbrev question_of : ToolCall → Run W → ApprovalRequest
      question_of tc r = record {
        tool = tc.name;
        args = tc.arguments;
        thread_id = thread;
        request_id = request;
        tool_call_id = tc.id;
        iteration = r.state.iteration;
      }

      -- with the request written, and with the answer not yet written
      abbrev Asked : ToolCall → Run W → Type 0
      Asked tc r = entries_of r.actions ≡ request_entry (question_of tc r) ∷ history r.actions

      abbrev Waiting : ToolCall → Str × Option Str → Run W → Type 0
      Waiting tc answer r =
          decision_entry (question_of tc r) answer.0 answer.1 ∷ entries_of r.actions
          ≡ history r.actions

      requested-Asked :
          (tc : ToolCall) (r : Run W) → Trail r → Asked tc (requested g thread request tc r)
      unfolding requested
      requested-Asked tc r h = ground arith

      decided-Trail :
          (tc : ToolCall) (decision : Str) (r : Run W)
          → Waiting tc (decision, none) r
          → Trail (decided g thread request tc decision true [] r)
      unfolding decided
      decided-Trail tc decision r h = ground arith

      rejected-Trail :
          (tc : ToolCall) (decision e : Str) (r : Run W)
          → Waiting tc (decision, some e) r
          → Trail (rejected g thread request tc decision e r)
      unfolding rejected
      rejected-Trail tc decision e r h = ground arith

      resume-Trail :
          (tool : Tool W) (tc : ToolCall) (answer : Str × Option Str) (r : Run W)
          → Waiting tc answer r
          → Trail (resume g thread request tool tc (answer, r))
      unfolding resume
      resume-Trail tool tc (decision, some e) r h = rejected-Trail tc decision e r h
      resume-Trail tool tc (decision, none) r h =
          execute-Trail tool tc (decided g thread request tc decision true [] r)
            (decided-Trail tc decision r h)

      approval-Trail :
          (tool : Tool W) (tc : ToolCall) (r : Run W)
          → Asked tc r
          → Trail (resume g thread request tool tc (wait_for_approval g thread request tc r))
      unfolding wait_for_approval
      approval-Trail tool tc r h =
          let (decision, refusal) = (g.approver (question_of tc r) r.world).0 in
          resume-Trail tool tc _ _
            (ap (λ es. decision_entry (question_of tc r) decision refusal ∷ es) h)

      gated-Trail :
          (tool : Tool W) (tc : ToolCall) (r : Run W)
          → Trail r
          → Trail (
              if should_interrupt g.config tc.name
              then resume g thread request tool tc
                  (wait_for_approval g thread request tc (requested g thread request tc r))
              else execute g thread request tool tc r)
      gated-Trail tool tc r h = elim (Bool-cases (should_interrupt g.config tc.name)) [
        | inl asks ↦
            rw asks
              (approval-Trail tool tc (requested g thread request tc r) (requested-Asked tc r h))
        | inr free ↦ rw free (execute-Trail tool tc r h)
      ]

      dispatch-Trail :
          (found : Option (Tool W)) (tc : ToolCall) (r : Run W)
          → Trail r
          → Trail (dispatch g thread request found tc r)
      unfolding dispatch
      dispatch-Trail none tc r h = h
      dispatch-Trail (some tool) tc r h = gated-Trail tool tc _ (emit-Trail _ r h)

      handle_calls-Trail :
          (tcs : List ToolCall) (r : Run W) → Trail r → Trail (handle_calls g thread request tcs r)
      unfolding handle_calls handle_call
      handle_calls-Trail [] r h = h
      handle_calls-Trail (tc ∷ tcs) r h =
          handle_calls-Trail tcs (handle_call g thread request tc r)
            (dispatch-Trail (lookup g.tools tc.name) tc r h)

      continue_turn-Trail :
          (content : Str) (tcs : List ToolCall) (r : Run W)
          → Trail r
          → Trail (continue_turn g thread request content tcs r)
      unfolding continue_turn save_state
      continue_turn-Trail content tcs r h =
          handle_calls-Trail tcs (say g thread request content r) (say-Trail content r h)

      take_turn-Trail :
          (reply : Result (Str × List ToolCall)) (r : Run W)
          → Trail r
          → AfterTurn Trail (λ _ r'. Trail r') (take_turn g thread request (reply, r))
      unfolding take_turn
      take_turn-Trail (err e) r h = h
      take_turn-Trail (ok (c ∷ content, [])) r h = finish-Trail (c ∷ content) r h
      take_turn-Trail (ok (content, tcs)) r h = continue_turn-Trail content tcs r h

    conclude-Trail :
        (d : (Output ⊎ AgentError) × Run W) → Trail d.1 → Trail (conclude g thread request d).1
    unfolding conclude
    conclude-Trail (inl out, r) h = h
    conclude-Trail (inr e, r) h = emit-Trail _ _ h

-- With an audit logger, in all that a run does the audit entries are just those that its questions to
-- the human call for, in their order: one for each question, with the raw arguments' hash, and one
-- for its answer directly after, which says approved exactly where there was no refusal.
pub run-Trail :
    {W : Type 0} (g : Graph W) (input : Input) (w : W) (out : Output ⊎ AgentError) (r : Run W)
    → g.has_audit ≡ true
    → run g input w ≡ some (out, r)
    → entries_of r.actions ≡ history g r.actions
run-Trail {W} g input w out r audits =
    let thread = input.thread_id in
    let Kept = λ (r : Run W). entries_of r.actions ≡ history g r.actions in
    run_rule g input w Kept (λ _ r. Kept r) (λ _ r. Kept r)
      (λ r _ h. take_turn-Trail g thread _ audits _ _ (call_model-Trail g thread _ r h))
      (λ r _ h. h) (λ d h. conclude-Trail g thread _ d h) (λ e _. refl) (λ o _. refl)
