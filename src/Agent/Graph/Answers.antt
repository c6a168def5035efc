-- ===== src/Agent/Graph/Answers.antt =====
-- agent/graph.go: what a turn adds to the conversation.
use mathlib.Core.Path.{subst}
use deepagent.Base.{
  ℕ, ◌+◌, ◌≡◌, refl, ap, Bool, true, false, Option, none, some, List, [], ◌∷◌, ◌++◌, arith,
  if◌then◌else◌, All, All-append, length, length-append, ◌∙◌, append_assoc, append-nil,
}
use deepagent.Base.Text.{Str, lit}
use deepagent.Tools.Value.{Value}
use deepagent.Agent.Types.{Result, ToolCall, State, Message, Event}
use deepagent.Agent.Graph.{Tool, Graph, Run, lookup, emit}
use deepagent.Agent.Graph.Calls.{
  decided, requested, wait_for_approval, rejected, call_tool, record_result, execute, resume,
  dispatch, handle_call, handle_calls,
}
use deepagent.Agent.Graph.Turns.{call_model, say, save_state, continue_turn}

-- The conversation `t` is `s` with `n` more messages of the role `tool`, in the same round.
pub record IsAnswered (n : ℕ) (s t : State) : Type 0 where
  pub answers : List Message
  pub grown : t.messages ≡ s.messages ++ answers
  pub each : All (λ (m : Message). m.role ≡ lit "tool") answers
  pub counted : length answers ≡ n
  pub same_round : t.iteration ≡ s.iteration

IsAnswered-zero : {s t : State} → t ≡ s → IsAnswered 0 s t
IsAnswered-zero {s} e = record {
  answers = [];
  grown = rw (append-nil, e);
  each = tt;
  counted = refl;
  same_round = rw e;
}

IsAnswered-add :
    {n k : ℕ} {s t u : State} → IsAnswered n s t → IsAnswered k t u → IsAnswered (n + k) s u
IsAnswered-add {n} {k} {s} {t} {u} h i = record {
  answers = h.answers ++ i.answers;
  grown =
      i.grown
      ∙ ap (λ (ms : List Message). ms ++ i.answers) h.grown
      ∙ append_assoc s.messages h.answers i.answers;
  each = All-append _ h.answers i.answers h.each i.each;
  counted = omega (arith, length-append h.answers i.answers, h.counted, i.counted);
  same_round = i.same_round ∙ h.same_round;
}

-- One message of the role `tool` after steps that leave the conversation alone.
one_answer :
    {s t : State} (content : Str)
    → t ≡ s
    → IsAnswered 1 s
        (record t { messages = t.messages ++ record { role = lit "tool"; content = content } ∷ [] })
one_answer content e = record {
  answers = record { role = lit "tool"; content = content } ∷ [];
  grown = rw e;
  each = (refl, tt);
  counted = refl;
  same_round = rw e;
}

-- How many of the calls name a tool that the graph has.
abbrev pub known_calls : {W : Type 0} → Graph W → List ToolCall → ℕ
known_calls g [] = 0
known_calls g (tc ∷ tcs) =
    elim (lookup g.tools tc.name) [ none ↦ 0 | some _ ↦ 1 ] + known_calls g tcs

module _ {W : Type 0} (g : Graph W) (thread request : Str) where
  pub emit-state : (e : Event) (r : Run W) → (emit g e r).state ≡ r.state
  unfolding emit
  emit-state e r = ground arith

  decided-state :
      (tc : ToolCall) (decision : Str) (b : Bool) (e : Str) (r : Run W)
      → (decided g thread request tc decision b e r).state ≡ r.state
  unfolding decided
  decided-state tc decision b e r = ground arith

  requested-state : (tc : ToolCall) (r : Run W) → (requested g thread request tc r).state ≡ r.state
  unfolding requested
  requested-state tc r = ground arith

  call_tool-state :
      (tool : Tool W) (tc : ToolCall) (r : Run W)
      → (call_tool g thread request tool tc r).1.state ≡ r.state
  unfolding call_tool
  call_tool-state tool tc r = ground arith

  rejected-IsAnswered :
      (tc : ToolCall) (decision e : Str) (r : Run W) (s : State)
      → r.state ≡ s
      → IsAnswered 1 s (rejected g thread request tc decision e r).state
  unfolding rejected
  rejected-IsAnswered tc decision e r s p =
      one_answer _
        (decided-state tc decision false e (record r { tool_errors = r.tool_errors + 1 }) ∙ p)

  record_result-IsAnswered :
      (tc : ToolCall) (result : Result Value) (r : Run W) (s : State)
      → r.state ≡ s
      → IsAnswered 1 s (record_result g thread request tc result r).state
  unfolding record_result
  record_result-IsAnswered tc result r s p = one_answer _ (emit-state _ _ ∙ p)

  execute-IsAnswered :
      (tool : Tool W) (tc : ToolCall) (r : Run W) (s : State)
      → r.state ≡ s
      → IsAnswered 1 s (execute g thread request tool tc r).state
  unfolding execute
  execute-IsAnswered tool tc r s p =
      record_result-IsAnswered tc _ _ s (call_tool-state tool tc r ∙ p)

  resume-IsAnswered :
      (tool : Tool W) (tc : ToolCall) (answer : Str × Option Str) (r : Run W) (s : State)
      → r.state ≡ s
      → IsAnswered 1 s (resume g thread request tool tc (answer, r)).state
  unfolding resume
  resume-IsAnswered tool tc (decision, some e) r s p = rejected-IsAnswered tc decision e r s p
  resume-IsAnswered tool tc (decision, none) r s p =
      execute-IsAnswered tool tc _ s (decided-state tc decision true [] r ∙ p)

  gated-IsAnswered :
      (b : Bool) (tool : Tool W) (tc : ToolCall) (r : Run W) (s : State)
      → r.state ≡ s
      → IsAnswered 1 s
          (if b
            then resume g thread request tool tc
                (wait_for_approval g thread request tc (requested g thread request tc r))
            else execute g thread request tool tc r).state
  unfolding wait_for_approval
  gated-IsAnswered true tool tc r s p = resume-IsAnswered tool tc _ _ s (requested-state tc r ∙ p)
  gated-IsAnswered false tool tc r s p = execute-IsAnswered tool tc r s p

  dispatch-IsAnswered :
      (found : Option (Tool W)) (tc : ToolCall) (r : Run W)
      → IsAnswered
          (elim found [ none ↦ 0 | some _ ↦ 1 ])
          r.state
          (dispatch g thread request found tc r).state
  unfolding dispatch
  dispatch-IsAnswered none tc r = IsAnswered-zero refl
  dispatch-IsAnswered (some tool) tc r = gated-IsAnswered _ tool tc _ r.state (emit-state _ r)

  -- Every call that names a tool of the graph is answered by one message of the role `tool`, in
  -- the same round, whether the call ran, failed or was refused; a call that names no tool of the
  -- graph gets no message.
  pub handle_calls-IsAnswered :
      (tcs : List ToolCall) (r : Run W)
      → IsAnswered (known_calls g tcs) r.state (handle_calls g thread request tcs r).state
  unfolding handle_calls handle_call
  handle_calls-IsAnswered [] r = IsAnswered-zero refl
  handle_calls-IsAnswered (tc ∷ tcs) r =
      IsAnswered-add (dispatch-IsAnswered (lookup g.tools tc.name) tc r)
        (handle_calls-IsAnswered tcs (handle_call g thread request tc r))

  pub call_model-messages :
      (r : Run W) → (call_model g thread request r).1.state.messages ≡ r.state.messages
  unfolding call_model
  call_model-messages r = ground arith

  pub call_model-iteration :
      (r : Run W) → (call_model g thread request r).1.state.iteration ≡ r.state.iteration + 1
  unfolding call_model
  call_model-iteration r = ground arith

  pub say-state :
      (content : Str) (r : Run W)
      → (say g thread request content r).state ≡ record r.state {
        messages = r.state.messages ++ record { role = lit "assistant"; content = content } ∷ [];
      }
  unfolding say
  say-state [] r = refl
  say-state (c ∷ content) r = emit-state _ _

  -- After a turn that goes on, the conversation has grown by the assistant's message and one
  -- answer to each call of a known tool, and that conversation has been saved last.
  pub continue_turn-IsAnswered :
      (content : Str) (tcs : List ToolCall) (r : Run W)
      → IsAnswered
          (known_calls g tcs)
          (record r.state {
            messages =
                r.state.messages ++ record { role = lit "assistant"; content = content } ∷ [];
          })
          (continue_turn g thread request content tcs r).state
  unfolding continue_turn save_state
  continue_turn-IsAnswered content tcs r =
      subst
        (λ (s : State).
          IsAnswered (known_calls g tcs) s
            (handle_calls g thread request tcs (say g thread request content r)).state)
        (say-state content r) (handle_calls-IsAnswered tcs (say g thread request content r))
