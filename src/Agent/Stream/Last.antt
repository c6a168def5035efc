-- ===== src/Agent/Stream/Last.antt =====
-- agent/graph.go: the last event of a run with a sink says how the run ends.
use mathlib.Core.List.{reverse, reverse-cons}
use deepagent.Base.{◌≡◌, refl, ap, ◌∙◌, inl, inr, some, true, List, [], ◌∷◌, ◌++◌}
use deepagent.Base.Text.{Str}
use deepagent.Agent.Types.{Result, ok, err, Input, Event, ToolCall}
use deepagent.Agent.Graph.{Graph, Run, act, emit}
use deepagent.Agent.Graph.Turns.{take_turn, finish, conclude}
use deepagent.Agent.Graph.Rules.{AfterTurn, Outcome, request_of, run_rule}
use deepagent.Agent.Stream.{run_with_event_sink, emitted, events}

-- The event that tells the reader the outcome.
abbrev pub outcome_event : Outcome → Event
outcome_event (inl out) = Event.final out
outcome_event (inr e) = Event.error e.code e.message e.thread_id e.request_id

-- The newest event of a run is this one.
abbrev Newest : {W : Type 0} → Event → Run W → Type 0
Newest e r = (older : List Event) × (emitted r.actions ≡ e ∷ older)

-- An answer has its event; the event of an error is still to come.
abbrev Answered : {W : Type 0} → Outcome → Run W → Type 0
Answered (inl out) r = Newest (Event.final out) r
Answered (inr e) r = Unit {0}

module _ {W : Type 0} (g : Graph W) (sink : g.has_event_sink ≡ true) (thread request : Str) where
  finish-Answered :
      (content : Str) (r : Run W)
      → Answered (inl (finish g thread request content r).0) (finish g thread request content r).1
  unfolding finish emit act
  finish-Answered content r = rw sink (_, refl)

  take_turn-Answered :
      (reply : Result (Str × List ToolCall)) (r : Run W)
      → AfterTurn (λ _. Unit {0}) Answered (take_turn g thread request (reply, r))
  unfolding take_turn
  take_turn-Answered (err e) r = tt
  take_turn-Answered (ok (c ∷ content, [])) r = finish-Answered (c ∷ content) r
  take_turn-Answered (ok (content, tcs)) r = tt

  conclude-Answered :
      (d : Outcome × Run W)
      → Answered d.0 d.1
      → Newest (outcome_event d.0) (conclude g thread request d).1
  unfolding conclude emit act
  conclude-Answered (inl out, r) h = h
  conclude-Answered (inr e, r) h = rw sink (_, refl)

-- The last event of a run with a sink is the final answer, or the error, that the run returns.
pub run-last_event :
    {W : Type 0} (g : Graph W) (input : Input) (w : W) (out : Outcome) (r : Run W)
    → run_with_event_sink g input w ≡ some (out, r)
    → (before : List Event) × (events r ≡ before ++ outcome_event out ∷ [])
unfolding run_with_event_sink
run-last_event {W} g input w out r h =
    let heard = record g { has_event_sink = true } in
    let (older, last) =
      run_rule heard input w (λ _. Unit {0}) (λ o r. Answered o r)
        (λ o r. Newest (outcome_event o) r)
        (λ r _ _. take_turn-Answered heard refl input.thread_id (request_of heard input w) _ _)
        (λ r _ _. tt)
        (λ d h. conclude-Answered heard refl input.thread_id (request_of heard input w) d h)
        (λ e failed. tt) (λ o same. tt) h in
    (reverse older, ap reverse last ∙ reverse-cons (outcome_event out) older)
