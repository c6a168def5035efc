-- ===== src/Agent/Stream.antt =====
-- agent/deepagent.go, `Stream`: a run that sends its events on a channel, and a reader of it.
pub mod Delivery
pub mod Progress
pub mod Last
mod Tests
use mathlib.Core.Option
use mathlib.Core.List.{reverse}
use deepagent.Base.{
  ℕ, ◌+◌, ◌⊎◌, Option, none, some, Bool, true, false, List, [], ◌∷◌, ◌++◌, length, ltb,
  if◌then◌else◌,
}
use deepagent.Agent.Types.{Input, Output, AgentError, Event, Action}
use deepagent.Agent.Graph.{Graph, Run}
use deepagent.Agent.Graph.Turns.{run}

-- `runWithEventSink`: a run of a copy of the graph that has a sink
unfoldable pub run_with_event_sink :
    {W : Type 0} → Graph W → Input → W → Option ((Output ⊎ AgentError) × Run W)
unfolding run
run_with_event_sink g input w = run (record g { has_event_sink = true }) input w

-- the events of a run, the latest first
abbrev pub emitted : List Action → List Event
emitted [] = []
emitted (Action.emitted e ∷ older) = e ∷ emitted older
emitted (_ ∷ older) = emitted older

-- the events of a run in the order in which the sink is called
abbrev pub events : {W : Type 0} → Run W → List Event
events r = reverse (emitted r.actions)

-- The goroutine has sent what is not in `todo`; the channel holds `buffer`; the reader has `got`.
pub record Stream : Type 0 where
  pub todo : List Event
  pub buffer : List Event
  pub got : List Event
  pub closed : Bool

-- `make(chan Event, 32)`, for a run with these events
abbrev pub opened : List Event → Stream
opened all = record { todo = all; buffer = []; got = []; closed = false }

-- The goroutine sends an event or, when the run has returned, closes the channel; the reader
-- receives an event.
pub data Move : Type 0 where
  send close receive : Move

abbrev pub capacity : ℕ
capacity = 32

-- `ch <- event`, which waits while the buffer is full
abbrev pub sends : List Event → Stream → Option Stream
sends [] s = none
sends (e ∷ todo) s =
    if ltb (length s.buffer) capacity
    then some (record s { todo = todo; buffer = s.buffer ++ e ∷ [] })
    else none

-- `defer close(ch)`
abbrev pub closes : List Event → Stream → Option Stream
closes [] s = if s.closed then none else some (record s { closed = true })
closes (_ ∷ _) s = none

abbrev pub receives : List Event → Stream → Option Stream
receives [] s = none
receives (e ∷ buffer) s = some (record s { buffer = buffer; got = s.got ++ e ∷ [] })

-- One move; `none` where it has to wait.
unfoldable pub step : Move → Stream → Option Stream
step send s = sends s.todo s
step close s = closes s.todo s
step receive s = receives s.buffer s

-- The moves in the order in which they are made.
unfoldable pub steps : List Move → Stream → Option Stream
unfolding step
steps [] s = some s
steps (m ∷ moves) s = Option.bind (step m s) (steps moves)

-- The reader's loop over the channel is over.
abbrev pub is_done : Stream → Bool
is_done s = elim s.buffer [ [] ↦ s.closed | _ ∷ _ ↦ false ]
