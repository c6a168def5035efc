-- ===== src/Agent/Graph/Termination.antt =====
-- agent/graph.go: every run ends, within twenty rounds.
use mathlib.Core.Option
use deepagent.Base.{
  ℕ, zero, suc, ◌+◌, ◌<◌, ◌≡◌, refl, ◌∙◌, ap, inl, inr, Option, none, some, List, [], ◌∷◌, arith,
  Bool-cases, ltb, ltb→lt,
}
use deepagent.Base.Text.{Str}
use deepagent.Agent.Types.{Result, ok, err, Input, ToolCall, State}
use deepagent.Agent.Graph.{Graph, Run}
use deepagent.Agent.Graph.Answers.{continue_turn-IsAnswered, call_model-iteration}
use deepagent.Agent.Graph.Rules.{Outcome, AfterTurn}
use deepagent.Agent.Graph.Turns.{
  take_turn, max_rounds, advance, loop, begin, run, initial, enough, start_state,
}

module _ {W : Type 0} (g : Graph W) (thread request : Str) where
  abbrev Ends : Option (Outcome × Run W) → Type 0
  Ends m = (d : Outcome × Run W) × (m ≡ some d)

  -- a turn that goes on is one round further
  take_turn-round :
      (k : ℕ) (reply : Result (Str × List ToolCall)) (r : Run W)
      → r.state.iteration ≡ k
      → AfterTurn
          (λ r'. r'.state.iteration ≡ k)
          (λ _ _. Unit)
          (take_turn g thread request (reply, r))
  unfolding take_turn
  take_turn-round k (err e) r h = tt
  take_turn-round k (ok (c ∷ content, [])) r h = tt
  take_turn-round k (ok (content, tcs)) r h =
      (continue_turn-IsAnswered g thread request content tcs r).same_round ∙ h

  advance-Ends :
      (k : Run W → Option (Outcome × Run W)) (m : ℕ) (verdict : Option Outcome) (r : Run W)
      → AfterTurn (λ r'. r'.state.iteration ≡ m) (λ _ _. Unit) (verdict, r)
      → ((r' : Run W) → r'.state.iteration ≡ m → Ends (k r'))
      → Ends (advance g thread request k (verdict, r))
  unfolding advance
  advance-Ends k m (some o) r h next = ((o, r), refl)
  advance-Ends k m none r h next = next r h

  loop-Ends :
      (fuel : ℕ) (r : Run W)
      → max_rounds < fuel + r.state.iteration
      → 0 < fuel
      → Ends (loop g thread request fuel r)
  unfolding loop
  loop-Ends zero r h p = absurd (omega arith)
  loop-Ends (suc fuel) r h p = elim (Bool-cases (ltb r.state.iteration max_rounds)) [
    | inl more ↦
        let room = ltb→lt _ _ more in
        rw (more, loop)
          (advance-Ends (loop g thread request fuel) (r.state.iteration + 1) _ _
            (take_turn-round _ _ _ (call_model-iteration g thread request r))
            (λ r' e. loop-Ends fuel r' (omega arith) (omega arith)))
    | inr full ↦ rw (full, loop) (_, refl)
  ]

  begin-Ends :
      (input : Input) (found : Result (Option State)) (w : W)
      → Ends (begin g thread request input (found, w))
  unfolding begin
  begin-Ends input (err e) w = (_, refl)
  begin-Ends input (ok found) w =
      loop-Ends enough (initial thread w (start_state g thread request input found)) (omega arith)
        (omega arith)

-- Every run ends with an outcome, whatever the model, the tools and the approver do: the fuel
-- never runs out.
pub run-Ends :
    {W : Type 0} (g : Graph W) (input : Input) (w : W)
    → (d : Outcome × Run W) × (run g input w ≡ some d)
unfolding run
run-Ends g input w =
    let (d, e) =
      begin-Ends g input.thread_id _ input (g.load input.thread_id w).0
        (g.load input.thread_id w).1 in
    (_, ap (Option.map _) e)
