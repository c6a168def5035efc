-- ===== src/Agent/Approvers/Gate.antt =====
-- agent/hitl_http.go with agent/graph.go: what a service must answer for a tool to be called.
use deepagent.Base.{
  ◌≡◌, ◌⊎◌, inl, inr, ap, ◌∙◌, arith, true, none, some, List, [], ◌∷◌, Option-cases,
}
use deepagent.Base.Text.{Str}
use deepagent.Agent.Types.{ApprovalRequest, ToolCall, Action, Event}
use deepagent.Agent.Graph.{Tool, Graph, Run, lookup, should_interrupt, emit}
use deepagent.Agent.Graph.Calls.{
  requested, wait_for_approval, rejected, resume, dispatch, handle_call,
}
use deepagent.Agent.Approvers.{Answer, HttpApproverConfig, Net, http_approver}
use deepagent.Agent.Approvers.Http.{Consents, http_approver-Consents}

-- The tools that were called.
abbrev pub calls : List Action → List Str
calls [] = []
calls (Action.called name _ _ ∷ older) = name ∷ calls older
calls (_ ∷ older) = calls older

module _ {W : Type 0} (g : Graph W) (thread request : Str) where
  -- What the human is asked about a call.
  abbrev pub question_of : ToolCall → Run W → ApprovalRequest
  question_of tc r = record {
    tool = tc.name;
    args = tc.arguments;
    thread_id = thread;
    request_id = request;
    tool_call_id = tc.id;
    iteration = r.state.iteration;
  }

  rejected-calls :
      (tc : ToolCall) (decision e : Str) (r : Run W)
      → calls (rejected g thread request tc decision e r).actions ≡ calls r.actions
  unfolding rejected
  rejected-calls tc decision e r = ground arith

  rejected-world :
      (tc : ToolCall) (decision e : Str) (r : Run W)
      → (rejected g thread request tc decision e r).world ≡ r.world
  unfolding rejected
  rejected-world tc decision e r = ground arith

  requested-calls :
      (tc : ToolCall) (r : Run W)
      → calls (requested g thread request tc r).actions ≡ calls r.actions
  unfolding requested
  requested-calls tc r = ground arith

  requested-world : (tc : ToolCall) (r : Run W) → (requested g thread request tc r).world ≡ r.world
  unfolding requested
  requested-world tc r = ground arith

  requested-state : (tc : ToolCall) (r : Run W) → (requested g thread request tc r).state ≡ r.state
  unfolding requested
  requested-state tc r = ground arith

  emit-same :
      (e : Event) (r : Run W)
      → ((emit g e r).state ≡ r.state)
        × ((emit g e r).world ≡ r.world)
        × (calls (emit g e r).actions ≡ calls r.actions)
  unfolding emit
  emit-same e r = (ground arith, ground arith, ground arith)

  -- Nothing is called, and the world is the one that the approver leaves.
  abbrev pub Stopped : ToolCall → Run W → Run W → Type 0
  Stopped tc r after =
      (calls after.actions ≡ calls r.actions)
      × (after.world ≡ (g.approver (question_of tc r) r.world).1)

  -- The run `r` shows more than `r0`, and is otherwise the same.
  resume-Stopped :
      (tool : Tool W) (tc : ToolCall) (r0 r : Run W)
      → r.state ≡ r0.state
      → r.world ≡ r0.world
      → calls r.actions ≡ calls r0.actions
      → ((g.approver (question_of tc r0) r0.world).0.1 ≡ none)
        ⊎ Stopped tc r0 (resume g thread request tool tc (wait_for_approval g thread request tc r))
  unfolding wait_for_approval resume
  resume-Stopped tool tc r0 r state world called =
      let same : g.approver (question_of tc r) r.world ≡ g.approver (question_of tc r0) r0.world =
        λ i.
          g.approver
            (record {
              tool = tc.name;
              args = tc.arguments;
              thread_id = thread;
              request_id = request;
              tool_call_id = tc.id;
              iteration = (state i).iteration;
            })
            (world i) in
      elim (Option-cases (g.approver (question_of tc r0) r0.world).0.1) [
        | inl agreed ↦ inl agreed
        | inr (e, refused) ↦
            let here : (g.approver (question_of tc r) r.world).0.1 ≡ some e =
              ap (λ (a : Answer × W). a.0.1) same ∙ refused in
            inr (
              rw here (
                rejected-calls tc _ e _ ∙ called,
                rejected-world tc _ e _ ∙ ap (λ (a : Answer × W). a.1) same,
              ))
      ]

  abbrev shown : ToolCall → Run W → Run W
  shown tc r =
      requested g thread request tc
        (emit g (Event.tool_call tc.name tc.arguments r.state.iteration) r)

  shown-same :
      (tc : ToolCall) (r : Run W)
      → ((shown tc r).state ≡ r.state)
        × ((shown tc r).world ≡ r.world)
        × (calls (shown tc r).actions ≡ calls r.actions)
  shown-same tc r =
      let e = Event.tool_call tc.name tc.arguments r.state.iteration in
      let (state, world, called) = emit-same e r in
      (
        requested-state tc (emit g e r) ∙ state,
        requested-world tc (emit g e r) ∙ world,
        requested-calls tc (emit g e r) ∙ called,
      )

  dispatch-Stopped :
      (tool : Tool W) (tc : ToolCall) (r : Run W)
      → should_interrupt g.config tc.name ≡ true
      → ((g.approver (question_of tc r) r.world).0.1 ≡ none)
        ⊎ Stopped tc r (dispatch g thread request (some tool) tc r)
  unfolding dispatch
  dispatch-Stopped tool tc r asks =
      let (state, world, called) = shown-same tc r in
      rw asks (resume-Stopped tool tc r (shown tc r) state world called)

module _ {W : Type 0} (net : Net W) (cfg : HttpApproverConfig) (g : Graph W)
    (thread request : Str) where
  -- The graph with the service as its approver.
  abbrev pub asking : Graph W
  asking = record g { approver = http_approver net cfg }

  -- With the service as the approver, a call of a known tool that waits for a human ends in one of
  -- two ways: the service was asked about this very call and approved, or no tool is called and
  -- the world is the one that the question left.
  pub handle_call-Consents :
      (tool : Tool W) (tc : ToolCall) (r : Run W)
      → lookup g.tools tc.name ≡ some tool
      → should_interrupt g.config tc.name ≡ true
      → Consents net cfg (question_of asking thread request tc r) r.world
        ⊎ Stopped asking thread request tc r (handle_call asking thread request tc r)
  unfolding handle_call
  handle_call-Consents tool tc r known asks =
      rw known (elim (dispatch-Stopped asking thread request tool tc r asks) [
        | inl agreed ↦ inl (
            (http_approver-Consents net cfg (question_of asking thread request tc r) r.world).0.0
              agreed)
        | inr stopped ↦ inr stopped
      ])
