-- ===== src/Agent/Graph/Approval.antt =====
-- agent/graph.go: a tool that waits for a human is called only after the human has agreed.
use deepagent.Base.{
  ◌≡◌, refl, ◌⊎◌, Bool, true, Option, none, some, List, [], ◌∷◌, arith, Bool-cases, if◌then◌else◌,
  inl, inr,
}
use deepagent.Base.Text.{Str}
use deepagent.Agent.Types.{Result, ok, err, Input, ToolCall, Output, AgentError, Action}
use deepagent.Agent.Graph.{Tool, Graph, Run, lookup, should_interrupt, emit}
use deepagent.Agent.Graph.Calls.{
  decided, requested, wait_for_approval, rejected, call_tool, record_result, execute, resume,
  dispatch, handle_call, handle_calls,
}
use deepagent.Agent.Graph.Rules.{AfterTurn, run_rule}
use deepagent.Agent.Graph.Turns.{
  call_model, say, save_state, finish, continue_turn, take_turn, conclude, run,
}

-- The latest question to the human was about this call and was answered by consent, and since
-- then there were only events and audit entries.
abbrev pub Cleared : Str → Str → List Action → Type 0
Cleared name id [] = ⊥
Cleared name id (Action.asked q decision refusal ∷ older) =
    (q.tool ≡ name) × (q.tool_call_id ≡ id) × (refusal ≡ none)
Cleared name id (Action.emitted _ ∷ older) = Cleared name id older
Cleared name id (Action.audited _ ∷ older) = Cleared name id older
Cleared name id (_ ∷ older) = ⊥

-- Every call of a tool for which the configuration asks for a human is cleared.
abbrev pub IsGuarded : List (Str × Bool) → List Action → Type 0
IsGuarded config [] = Unit
IsGuarded config (Action.called name id args ∷ older) =
    (should_interrupt config name ≡ true → Cleared name id older) × IsGuarded config older
IsGuarded config (_ ∷ older) = IsGuarded config older

module _ {W : Type 0} (g : Graph W) (thread request : Str) where
  abbrev Guarded : Run W → Type 0
  Guarded r = IsGuarded g.config r.actions

  -- the answer that a question got stands on top
  decided-Cleared :
      (tc : ToolCall) (decision : Str) (r : Run W)
      → Cleared tc.name tc.id r.actions
      → Cleared tc.name tc.id (decided g thread request tc decision true [] r).actions
  unfolding decided
  decided-Cleared tc decision r h = ground arith

  decided-Guarded :
      (tc : ToolCall) (decision : Str) (b : Bool) (e : Str) (r : Run W)
      → Guarded r
      → Guarded (decided g thread request tc decision b e r)
  unfolding decided
  decided-Guarded tc decision b e r h = ground arith

  requested-Guarded :
      (tc : ToolCall) (r : Run W) → Guarded r → Guarded (requested g thread request tc r)
  unfolding requested
  requested-Guarded tc r h = ground arith

  rejected-Guarded :
      (tc : ToolCall) (decision e : Str) (r : Run W)
      → Guarded r
      → Guarded (rejected g thread request tc decision e r)
  unfolding rejected
  rejected-Guarded tc decision e r h = ground arith

  record_result-Guarded :
      (tc : ToolCall) (result : Result _) (r : Run W)
      → Guarded r
      → Guarded (record_result g thread request tc result r)
  unfolding record_result
  record_result-Guarded tc result r h = ground arith

  call_tool-Guarded :
      (tool : Tool W) (tc : ToolCall) (r : Run W)
      → (should_interrupt g.config tc.name ≡ true → Cleared tc.name tc.id r.actions)
      → Guarded r
      → Guarded (call_tool g thread request tool tc r).1
  unfolding call_tool
  call_tool-Guarded tool tc r clear h = ground arith

  execute-Guarded :
      (tool : Tool W) (tc : ToolCall) (r : Run W)
      → (should_interrupt g.config tc.name ≡ true → Cleared tc.name tc.id r.actions)
      → Guarded r
      → Guarded (execute g thread request tool tc r)
  unfolding execute
  execute-Guarded tool tc r clear h =
      let (result, r') = call_tool g thread request tool tc r in
      record_result-Guarded tc result r' (call_tool-Guarded tool tc r clear h)

  resume-Guarded :
      (tool : Tool W) (tc : ToolCall) (answer : Str × Option Str) (r : Run W)
      → (answer.1 ≡ none → Cleared tc.name tc.id r.actions)
      → Guarded r
      → Guarded (resume g thread request tool tc (answer, r))
  unfolding resume
  resume-Guarded tool tc (decision, some e) r clear h = rejected-Guarded tc decision e r h
  resume-Guarded tool tc (decision, none) r clear h =
      execute-Guarded tool tc (decided g thread request tc decision true [] r)
        (λ _. decided-Cleared tc decision r (clear refl)) (decided-Guarded tc decision true [] r h)

  approval-Guarded :
      (tool : Tool W) (tc : ToolCall) (r : Run W)
      → Guarded r
      → Guarded (resume g thread request tool tc (wait_for_approval g thread request tc r))
  unfolding wait_for_approval
  approval-Guarded tool tc r h = resume-Guarded tool tc _ _ (λ e. (refl, refl, e)) h

  -- with the tool found, and the event of the call shown
  gated-Guarded :
      (tool : Tool W) (tc : ToolCall) (r : Run W)
      → Guarded r
      → Guarded (
          if should_interrupt g.config tc.name
          then resume g thread request tool tc
              (wait_for_approval g thread request tc (requested g thread request tc r))
          else execute g thread request tool tc r)
  gated-Guarded tool tc r h = elim (Bool-cases (should_interrupt g.config tc.name)) [
    | inl asks ↦
        rw asks
          (approval-Guarded tool tc (requested g thread request tc r) (requested-Guarded tc r h))
    | inr free ↦ rw free (execute-Guarded tool tc r (λ asks. cc (free, asks)) h)
  ]

  emit-Guarded : (e : _) (r : Run W) → Guarded r → Guarded (emit g e r)
  unfolding emit
  emit-Guarded e r h = ground arith

  dispatch-Guarded :
      (found : Option (Tool W)) (tc : ToolCall) (r : Run W)
      → Guarded r
      → Guarded (dispatch g thread request found tc r)
  unfolding dispatch
  dispatch-Guarded none tc r h = h
  dispatch-Guarded (some tool) tc r h = gated-Guarded tool tc _ (emit-Guarded _ r h)

  handle_call-Guarded :
      (tc : ToolCall) (r : Run W) → Guarded r → Guarded (handle_call g thread request tc r)
  unfolding handle_call
  handle_call-Guarded tc r h = dispatch-Guarded (lookup g.tools tc.name) tc r h

  handle_calls-Guarded :
      (tcs : List ToolCall) (r : Run W) → Guarded r → Guarded (handle_calls g thread request tcs r)
  unfolding handle_calls
  handle_calls-Guarded [] r h = h
  handle_calls-Guarded (tc ∷ tcs) r h =
      handle_calls-Guarded tcs (handle_call g thread request tc r) (handle_call-Guarded tc r h)

  call_model-Guarded : (r : Run W) → Guarded r → Guarded (call_model g thread request r).1
  unfolding call_model
  call_model-Guarded r h = ground arith

  finish-Guarded :
      (content : Str) (r : Run W) → Guarded r → Guarded (finish g thread request content r).1
  unfolding finish say save_state emit
  finish-Guarded content r h = ground arith

  say-Guarded : (content : Str) (r : Run W) → Guarded r → Guarded (say g thread request content r)
  unfolding say
  say-Guarded content r h = ground arith

  save_state-Guarded : (r : Run W) → Guarded r → Guarded (save_state g thread request r)
  unfolding save_state
  save_state-Guarded r h = h

  continue_turn-Guarded :
      (content : Str) (tcs : List ToolCall) (r : Run W)
      → Guarded r
      → Guarded (continue_turn g thread request content tcs r)
  unfolding continue_turn
  continue_turn-Guarded content tcs r h =
      save_state-Guarded (handle_calls g thread request tcs (say g thread request content r))
        (handle_calls-Guarded tcs (say g thread request content r) (say-Guarded content r h))

  take_turn-Guarded :
      (reply : Result (Str × List ToolCall)) (r : Run W)
      → Guarded r
      → AfterTurn Guarded (λ _ r'. Guarded r') (take_turn g thread request (reply, r))
  unfolding take_turn
  take_turn-Guarded (err e) r h = h
  take_turn-Guarded (ok (c ∷ content, [])) r h = finish-Guarded (c ∷ content) r h
  take_turn-Guarded (ok (content, tcs)) r h = continue_turn-Guarded content tcs r h

  conclude-Guarded :
      (d : (Output ⊎ AgentError) × Run W) → Guarded d.1 → Guarded (conclude g thread request d).1
  unfolding conclude
  conclude-Guarded (inl out, r) h = h
  conclude-Guarded (inr e, r) h = emit-Guarded _ _ h

-- In all that a run does, whatever the model and the approver answer, a tool for which the
-- configuration asks for a human is called only directly after the human was asked about that
-- very call and consented: only events and audit entries stand in between.
pub run-IsGuarded :
    {W : Type 0} (g : Graph W) (input : Input) (w : W) (out : Output ⊎ AgentError) (r : Run W)
    → run g input w ≡ some (out, r)
    → IsGuarded g.config r.actions
run-IsGuarded {W} g input w out r =
    let thread = input.thread_id in
    let Clean = λ (r : Run W). IsGuarded g.config r.actions in
    run_rule g input w Clean (λ _ r. IsGuarded g.config r.actions)
      (λ _ r. IsGuarded g.config r.actions)
      (λ r _ h. take_turn-Guarded g thread _ _ _ (call_model-Guarded g thread _ r h)) (λ r _ h. h)
      (λ d h. conclude-Guarded g thread _ d h) (λ e _. tt) (λ o _. tt)
