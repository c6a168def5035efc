-- ===== src/Agent/Graph/Tests.antt =====
-- Runs of a small agent, and the theorems about runs at them.
use deepagent.Base.{
  ℕ, zero, suc, ◌≡◌, refl, inl, Bool, true, false, Option, none, some, List, [], ◌∷◌, arith,
  if◌then◌else◌,
}
use deepagent.Base.Text.{Str, lit, str_eq}
use deepagent.Llms.Schema.{generate_parameters_schema}
use deepagent.Tools.Value.{Value}
use deepagent.Agent.Types.{Result, ok, Input, ToolCall, State, Action}
use deepagent.Agent.Graph.{Tool, Graph, Run, lookup, should_interrupt}
use deepagent.Agent.Graph.Approval.{IsGuarded, run-IsGuarded}
use deepagent.Agent.Graph.Answers.{IsAnswered, known_calls, handle_calls-IsAnswered}
use deepagent.Agent.Graph.Calls.{handle_calls}
use deepagent.Agent.Graph.Outcome.{EndsWell, FailsIdle, run-EndsWell, run-exhausted}
use deepagent.Agent.Graph.Rules.{Outcome, request_of}
use deepagent.Agent.Graph.Turns.{initial, start_state, give_up, finish, run}
use deepagent.Agent.Graph.Termination.{run-Ends}

-- The world is the number of questions to the model: first it calls the two tools, then answers.
abbrev rm : Tool ℕ
rm = record {
  name = lit "rm";
  description = [];
  parameters = Value.nil;
  call = λ args w. (ok Value.nil, w);
}

abbrev agent : Bool → Result (Option State) → Graph ℕ
agent agrees checkpoint = record {
  invoke = λ messages specs w. (
    elim w [
      | zero ↦ ok (
        [],
        record { id = lit "1"; name = lit "rm"; arguments = lit "{}" }
            ∷ record { id = lit "2"; name = lit "unknown"; arguments = [] }
            ∷ [],
      )
      | suc _ ↦ ok (lit "done", [])
    ],
    suc w,
  );
  tools = (lit "rm", rm) ∷ [];
  prompt = lit "be kind";
  load = λ thread w. (checkpoint, w);
  save = λ thread s w. w;
  put = λ thread key result w. w;
  config = (lit "rm", true) ∷ [];
  approver = λ question w. ((lit "answer", if agrees then none else some (lit "no")), w);
  has_event_sink = true;
  has_audit = true;
  include_args = false;
  validate = λ schema args. none;
  decode_args = λ text. none;
  decode = λ text. none;
  encode = λ result. ok result.tool;
  hash = λ text. text;
  now = λ w. lit "7";
}

abbrev ask : Input
ask = record {
  messages = record { role = lit "user"; content = lit "hi" } ∷ [];
  thread_id = lit "t";
}

abbrev used_up : State
used_up = record { messages = []; tool_calls = []; thread_id = lit "t"; iteration = 20; final = [] }

-- The outcome of a run, and the tools that it called.
abbrev calls_of : List Action → List Str
calls_of [] = []
calls_of (Action.called name _ _ ∷ older) = name ∷ calls_of older
calls_of (_ ∷ older) = calls_of older

abbrev actions_of : Option (Outcome × Run ℕ) → List Action
actions_of none = []
actions_of (some (_, r)) = r.actions

abbrev final_of : Option (Outcome × Run ℕ) → Option Str
final_of (some (inl out, _)) = some out.final
final_of _ = none

abbrev state_of : Option (Outcome × Run ℕ) → State
state_of none = used_up
state_of (some (_, r)) = r.state

abbrev outcome_of : Option (Outcome × Run ℕ) → Outcome
outcome_of none = inl (record { messages = []; final = []; thread_id = []; request_id = [] })
outcome_of (some (out, _)) = out

abbrev two_calls : List ToolCall
two_calls =
    record { id = lit "1"; name = lit "rm"; arguments = lit "{}" }
    ∷ record { id = lit "2"; name = lit "unknown"; arguments = [] }
    ∷ []

-- The human agrees: the tool is called once, and the model answers in the next turn.
agreed_run :
    (final_of (run (agent true (ok none)) ask 0) ≡ some (lit "done"))
    × (calls_of (actions_of (run (agent true (ok none)) ask 0)) ≡ lit "rm" ∷ [])
unfolding run lookup should_interrupt str_eq finish generate_parameters_schema
agreed_run = (refl, refl)

-- The human refuses: no tool is called, and the model still answers.
refused_run :
    (final_of (run (agent false (ok none)) ask 0) ≡ some (lit "done"))
    × (calls_of (actions_of (run (agent false (ok none)) ask 0)) ≡ [])
unfolding run lookup should_interrupt str_eq finish
refused_run = (refl, refl)

run-IsGuarded_example :
    IsGuarded ((lit "rm", true) ∷ []) (actions_of (run (agent true (ok none)) ask 0))
unfolding run lookup should_interrupt str_eq finish
run-IsGuarded_example = run-IsGuarded (agent true (ok none)) ask 0 _ _ refl

run-Ends_example : (d : Outcome × Run ℕ) × (run (agent true (ok none)) ask 0 ≡ some d)
run-Ends_example = run-Ends (agent true (ok none)) ask 0

run-exhausted_example :
    FailsIdle
      (agent true (ok (some used_up)))
      ask
      0
      (give_up
        (agent true (ok (some used_up)))
        (lit "t")
        (request_of (agent true (ok (some used_up))) ask 0))
      (run (agent true (ok (some used_up))) ask 0)
run-exhausted_example =
    run-exhausted (agent true (ok (some used_up))) ask 0 used_up refl (omega arith)

run-EndsWell_example :
    EndsWell
      (start_state (agent true (ok none)) (lit "t") (lit "t-7") ask none)
      (outcome_of (run (agent true (ok none)) ask 0))
      (actions_of (run (agent true (ok none)) ask 0))
      (state_of (run (agent true (ok none)) ask 0))
unfolding run lookup should_interrupt str_eq finish
run-EndsWell_example = run-EndsWell (agent true (ok none)) ask 0 none _ _ refl refl

-- The known tool is answered, and the unknown one is not.
handle_calls-IsAnswered_example :
    IsAnswered
      (known_calls (agent true (ok none)) two_calls)
      used_up
      (handle_calls (agent true (ok none)) [] [] two_calls (initial [] 0 used_up)).state
handle_calls-IsAnswered_example =
    handle_calls-IsAnswered (agent true (ok none)) [] [] two_calls (initial [] 0 used_up)
