-- ===== src/Agent/Graph/Turns.antt =====
-- agent/graph.go: the model's turns, the loop, and a whole run.
use mathlib.Core.Option
use deepagent.Base.{
  ℕ, zero, suc, ◌+◌, ◌⊎◌, inl, inr, Option, none, some, List, [], ◌∷◌, ◌++◌, ltb, length,
  if◌then◌else◌,
}
use deepagent.Base.Text.{Str, lit, is_empty}
use deepagent.Agent.Types.{
  Result, ok, err, Input, ToolCall, State, Code, checkpoint_load, llm_invoke, max_iterations,
  AgentError, Output, Event, Action, RunSummary,
}
use deepagent.Agent.Graph.{
  Graph, Run, new_request_id, error_text, convert_tools_to_llm_format, act, emit, append_message,
}
use deepagent.Agent.Graph.Calls.{is_err, handle_calls}

abbrev pub max_rounds : ℕ
max_rounds = 20

abbrev pub initial : {W : Type 0} (thread : Str) (w : W) (s : State) → Run W
initial thread w s = record {
  world = w;
  actions = Action.loaded thread ∷ [];
  state = s;
  iteration = 0;
  model_calls = 0;
  model_errors = 0;
  tool_calls = 0;
  tool_errors = 0;
}

-- More rounds than the loop can make.
abbrev pub enough : ℕ
enough = 21

module _ {W : Type 0} (g : Graph W) where
  module _ (thread request : Str) where
    -- the model's turn, with its log and event
    unfoldable pub call_model : Run W → Result (Str × List ToolCall) × Run W
    unfolding act emit convert_tools_to_llm_format
    call_model r0 =
        let n = r0.state.iteration + 1 in
        let r = record r0 {
          state = record r0.state { iteration = n };
          iteration = n;
          model_calls = r0.model_calls + 1;
        } in
        let specs = convert_tools_to_llm_format g g.tools in
        let (reply, w) = g.invoke r.state.messages specs r.world in
        let asked = act g (Action.invoked r.state.messages specs) (record r {
          world = w;
          model_errors = if is_err reply then r.model_errors + 1 else r.model_errors;
        }) in
        let failure : Option Str = elim reply [ ok _ ↦ none | err e ↦ some e ] in
        let logged =
          act g (Action.logged_model (length r.state.messages) (length specs) failure) asked in
        (reply, emit g (Event.model_call n (is_err reply)) logged)

    -- the message of the assistant, with its event if anything is said
    unfoldable pub say : Str → Run W → Run W
    unfolding emit append_message
    say content r =
        let said = append_message g (record { role = lit "assistant"; content = content }) r in
        if is_empty content
        then said
        else emit g (Event.message (lit "assistant") content said.state.iteration) said

    -- `g.checkpointer.Save`; its error is printed, or passed over
    unfoldable pub save_state : Run W → Run W
    unfolding act
    save_state r =
        act g (Action.saved thread r.state) (record r { world = g.save thread r.state r.world })

    -- the final answer
    unfoldable pub finish : Str → Run W → Output × Run W
    finish content r0 =
        let shown = say content r0 in
        let saved = save_state (record shown { state = record shown.state { final = content } }) in
        let out : Output = record {
          messages = saved.state.messages;
          final = content;
          thread_id = thread;
          request_id = request;
        } in
        (out, emit g (Event.final out) saved)

    -- a turn with tool calls, or with nothing said
    unfoldable pub continue_turn : Str → List ToolCall → Run W → Run W
    unfolding say save_state handle_calls
    continue_turn content tcs r = save_state (handle_calls g thread request tcs (say content r))

    -- `wrapRunError`
    unfoldable pub wrap_run_error : Code → Str → Str → AgentError
    wrap_run_error c text cause = record {
      code = c;
      message = text;
      thread_id = thread;
      request_id = request;
      cause = cause;
    }

    -- `if len(toolCalls) == 0 && content != ""`
    unfoldable pub take_turn :
        Result (Str × List ToolCall) × Run W → (Option (Output ⊎ AgentError)) × Run W
    unfolding finish continue_turn wrap_run_error
    take_turn (err e, r) =
        (some (inr (wrap_run_error llm_invoke (lit "failed to invoke llm") e)), r)
    take_turn (ok (c ∷ content, []), r) =
        let (out, r') = finish (c ∷ content) r in (some (inl out), r')
    take_turn (ok (content, tcs), r) = (none, continue_turn content tcs r)

    -- goes on with `k` unless the turn ended the run
    unfoldable pub advance :
        (Run W → Option ((Output ⊎ AgentError) × Run W))
        → Option (Output ⊎ AgentError) × Run W
        → Option ((Output ⊎ AgentError) × Run W)
    advance k (some outcome, r) = some (outcome, r)
    advance k (none, r) = k r

    unfoldable pub give_up : AgentError
    unfolding wrap_run_error
    give_up =
        wrap_run_error max_iterations (lit "max iterations reached") (lit "max iterations reached")

    -- `for state.Iteration < 20`, on fuel; `none` means that the fuel ran out.
    unfoldable pub loop : ℕ → Run W → Option ((Output ⊎ AgentError) × Run W)
    unfolding call_model take_turn advance give_up
    loop zero r = none
    loop (suc fuel) r =
        if ltb r.state.iteration max_rounds
        then advance (loop fuel) (take_turn (call_model r))
        else some (inr give_up, r)

    unfoldable pub summary_of : Output ⊎ AgentError → Run W → RunSummary
    unfolding error_text
    summary_of outcome r = record {
      thread_id = thread;
      request_id = request;
      iterations = r.iteration;
      model_calls = r.model_calls;
      model_errors = r.model_errors;
      tool_calls = r.tool_calls;
      tool_errors = r.tool_errors;
      error = elim outcome [ inl _ ↦ [] | inr e ↦ error_text e ];
    }

    -- the deferred function: the summary, and the event of an error
    unfoldable pub conclude : (Output ⊎ AgentError) × Run W → (Output ⊎ AgentError) × Run W
    unfolding act emit summary_of
    conclude (inl out, r) = (inl out, act g (Action.logged_summary (summary_of (inl out) r)) r)
    conclude (inr e, r) = (
      inr e,
      emit g (Event.error e.code e.message e.thread_id e.request_id)
          (act g (Action.logged_summary (summary_of (inr e) r)) r),
    )

    -- the state to start from, with the input's messages
    unfoldable pub start_state : Input → Option State → State
    start_state input (some s) = record s { messages = s.messages ++ input.messages }
    start_state input none = record {
      messages = record { role = lit "system"; content = g.prompt } ∷ input.messages;
      thread_id = input.thread_id;
      tool_calls = [];
      iteration = 0;
      final = [];
    }

    unfoldable pub load_failed : Str → AgentError
    unfolding wrap_run_error
    load_failed e = wrap_run_error checkpoint_load (lit "failed to load checkpoint") e

    -- what follows the load of the checkpoint
    unfoldable pub begin :
        Input → Result (Option State) × W → Option ((Output ⊎ AgentError) × Run W)
    unfolding load_failed start_state loop
    begin input (err e, w) = some (inr (load_failed e), initial thread w (start_state input none))
    begin input (ok found, w) = loop enough (initial thread w (start_state input found))

  -- `Graph.Run`: the outcome, and all that was done.
  unfoldable pub run : Input → W → Option ((Output ⊎ AgentError) × Run W)
  unfolding begin conclude new_request_id
  run input w =
      let request = new_request_id input.thread_id (g.now w) in
      Option.map (conclude input.thread_id request)
        (begin input.thread_id request input (g.load input.thread_id w))
