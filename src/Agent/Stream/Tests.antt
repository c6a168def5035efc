-- ===== src/Agent/Stream/Tests.antt =====
-- A run that answers at once, its stream, and the theorems about streams at them.
use mathlib.Core.Option
use deepagent.Base.{
  ℕ, zero, suc, ◌+◌, ◌*◌, ◌≡◌, ◌≢◌, refl, inl, false, Option, none, some, List, [], ◌∷◌, ◌++◌,
  length, arith,
}
use deepagent.Base.Text.{lit}
use deepagent.Agent.Types.{ok, Input, State, Event}
use deepagent.Agent.Graph.{Graph, Run}
use deepagent.Agent.Graph.Turns.{initial, finish}
use deepagent.Agent.Graph.Rules.{Outcome}
use deepagent.Agent.Stream.{
  Stream, opened, Move, send, close, receive, run_with_event_sink, events, steps,
}
use deepagent.Agent.Stream.Last.{outcome_event}
use deepagent.Agent.Stream.Delivery.{stream-Delivers}
use deepagent.Agent.Stream.Progress.{left, HasMove, stream-Ends, stream-Unread}

abbrev quick : Graph ℕ
quick = record {
  invoke = λ messages specs w. (ok (lit "done", []), w);
  tools = [];
  prompt = lit "be kind";
  load = λ thread w. (ok none, w);
  save = λ thread s w. w;
  put = λ thread key result w. w;
  config = [];
  approver = λ question w. ((lit "answer", none), w);
  has_event_sink = false;
  has_audit = false;
  include_args = false;
  validate = λ schema args. none;
  decode_args = λ text. none;
  decode = λ text. none;
  encode = λ result. ok result.tool;
  hash = λ text. text;
  now = λ w. lit "7";
}

abbrev ask : Input
ask = record {
  messages = record { role = lit "user"; content = lit "hi" } ∷ [];
  thread_id = lit "t";
}

abbrev nothing : State
nothing = record { messages = []; tool_calls = []; thread_id = []; iteration = 0; final = [] }

abbrev run_of : Option (Outcome × Run ℕ) → Run ℕ
run_of none = initial [] 0 nothing
run_of (some (_, r)) = r

abbrev outcome_of : Option (Outcome × Run ℕ) → Outcome
outcome_of none = inl (record { messages = []; final = []; thread_id = []; request_id = [] })
outcome_of (some (out, _)) = out

abbrev quick_run : Option (Outcome × Run ℕ)
quick_run = run_with_event_sink quick ask 0

three_events : length (events (run_of quick_run)) ≡ 3
unfolding run_with_event_sink finish
three_events = refl

-- The reader takes the first event while the others are being sent.
abbrev all_moves : List Move
all_moves = send ∷ send ∷ receive ∷ send ∷ receive ∷ close ∷ receive ∷ []

abbrev stream_of : Option Stream → Stream
stream_of none = opened []
stream_of (some s) = s

stream-Delivers_example :
    ((stream_of (steps all_moves (opened (events (run_of quick_run))))).got
      ≡ events (run_of quick_run))
    × (before : List Event) × ((stream_of
          (steps all_moves (opened (events (run_of quick_run))))).got
        ≡ before ++ outcome_event (outcome_of quick_run) ∷ [])
unfolding run_with_event_sink finish steps Option.bind
stream-Delivers_example =
    stream-Delivers quick ask 0 (outcome_of quick_run) (run_of quick_run) all_moves
      (stream_of (steps all_moves (opened (events (run_of quick_run))))) refl refl refl

abbrev ticks : ℕ → List Event
ticks zero = []
ticks (suc n) = Event.model_call n false ∷ ticks n

abbrev halfway : Stream
halfway = stream_of (steps (send ∷ receive ∷ send ∷ []) (opened (ticks 2)))

stream-Ends_example : (3 + left halfway ≡ 2 * 2 + 1) × HasMove halfway
unfolding steps Option.bind
stream-Ends_example = stream-Ends (ticks 2) (send ∷ receive ∷ send ∷ []) halfway refl

abbrev unread : Stream
unread = stream_of (steps (send ∷ send ∷ []) (opened (ticks 33)))

stream-Unread_example : (unread.todo ≢ []) × (unread.closed ≡ false)
unfolding steps Option.bind
stream-Unread_example = stream-Unread (ticks 33) (send ∷ send ∷ []) unread (omega arith) tt refl
