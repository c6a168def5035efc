-- ===== src/Agent/Graph/Accounts.antt =====
-- agent/graph.go: the counters of a run agree with what the run did, and the loop is bounded.
use deepagent.Base.{ℕ, ◌+◌, ◌≤◌, ◌≡◌, ◌⊎◌, Option, some, List, [], ◌∷◌}
use deepagent.Base.Text.{Str}
use deepagent.Tools.Value.{Value}
use deepagent.Agent.Types.{Result, ok, err, State, Action, RunSummary}
use deepagent.Agent.Graph.{Graph, Run}
use deepagent.Agent.Graph.Turns.{max_rounds}

-- How often the model was asked.
abbrev pub invocations : List Action → ℕ
invocations [] = 0
invocations (Action.invoked _ _ ∷ older) = invocations older + 1
invocations (_ ∷ older) = invocations older

-- How many calls the tool log has.
abbrev pub logged_calls : List Action → ℕ
logged_calls [] = 0
logged_calls (Action.logged_tool _ _ _ ∷ older) = logged_calls older + 1
logged_calls (_ ∷ older) = logged_calls older

-- How many calls failed or were refused by the human.
abbrev pub failures : List Action → ℕ
failures [] = 0
failures (Action.logged_tool _ _ (err _) ∷ older) = failures older + 1
failures (Action.asked _ _ (some _) ∷ older) = failures older + 1
failures (_ ∷ older) = failures older

-- How often the model failed, by the model log.
abbrev pub model_failures : List Action → ℕ
model_failures [] = 0
model_failures (Action.logged_model _ _ (some _) ∷ older) = model_failures older + 1
model_failures (_ ∷ older) = model_failures older

-- The summaries that were logged.
abbrev pub summaries : List Action → List RunSummary
summaries [] = []
summaries (Action.logged_summary s ∷ older) = s ∷ summaries older
summaries (_ ∷ older) = summaries older

-- The counters after `m` rounds from iteration `n`; nothing is summed up yet.
pub record Balanced {W : Type 0} (n m : ℕ) (r : Run W) : Type 0 where
  pub models : invocations r.actions ≡ r.model_calls
  pub tools : logged_calls r.actions ≡ r.tool_calls
  pub model_errors : model_failures r.actions ≡ r.model_errors
  pub last_round : (r.iteration ≡ r.state.iteration) ⊎ ((m ≡ 0) × (r.iteration ≡ 0))
  pub errors : failures r.actions ≡ r.tool_errors
  pub calls : r.model_calls ≡ m
  pub rounds : r.state.iteration ≡ n + m
  pub open_books : summaries r.actions ≡ []

module _ {W : Type 0} (g : Graph W) (thread request : Str) (n : ℕ) where
  -- between the turns
  abbrev InRounds : Run W → Type 0
  InRounds r = (m : ℕ) × Balanced n m r × ((m ≡ 0) ⊎ (n + m ≤ max_rounds))

-- For a run that goes on from iteration `start`: one summary was logged, its counters are the numbers
-- of the things done, its iterations are those of the thread, or 0 if the model was not asked, and
-- if it was, the thread has made no more than `max_rounds`.
pub record IsAccounted (start : ℕ) (actions : List Action) : Type 0 where
  pub summary : RunSummary
  pub once : summaries actions ≡ summary ∷ []
  pub models : summary.model_calls ≡ invocations actions
  pub model_errors : summary.model_errors ≡ model_failures actions
  pub tools : summary.tool_calls ≡ logged_calls actions
  pub errors : summary.tool_errors ≡ failures actions
  pub iterations :
      ((invocations actions ≡ 0) × (summary.iterations ≡ 0))
      ⊎ (summary.iterations ≡ start + invocations actions)
  pub bounded : (invocations actions ≡ 0) ⊎ (start + invocations actions ≤ max_rounds)

-- The iteration of the checkpoint that was loaded, if there is one.
abbrev pub start_of : Result (Option State) → ℕ
start_of (ok (some s)) = s.iteration
start_of _ = 0
