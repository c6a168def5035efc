-- ===== src/Agent/Audit/Trail.antt =====
-- agent/hitl_audit.go with agent/graph.go: the audit file of a run.
mod Tests
use deepagent.Base.{◌≡◌, ◌⊎◌, ap, ◌∙◌, true, some, List, [], ◌++◌, All}
use deepagent.Agent.Types.{Input, Output, AgentError, Action}
use deepagent.Agent.Graph.{Graph, Run}
use deepagent.Agent.Graph.Trail.{entries_of, history, run-Trail}
use deepagent.Agent.Graph.Turns.{run}
use deepagent.Agent.Audit.{Codec}
use deepagent.Agent.Audit.Logger.{File, contents, new_logger, lines}
use deepagent.Agent.Audit.Lines.{Solid}
use deepagent.Agent.Audit.History.{LogCall, Verifies, log_all, log_all-Verifies, new_logger-IsSound}
use deepagent.Agent.Audit.Written.{
  CanWrite, CanWrite-CanLog, bodies_onto, bodies_onto-append, bodies_in, log_all-bodies,
}

module _ (c : Codec) {W : Type 0} (g : Graph W) where
  -- When a new logger on no file, or on one without blank lines that ends in a line feed and verifies,
  -- gets the audit entries of a run in their order, no system call fails, and each entry has a JSON
  -- of one line that fits the scanner and is read back: then the file verifies, and says what it said
  -- before and then, for each question of the run to the human, that it was asked and how it was
  -- answered.
  pub run-IsOnFile :
      (input : Input) (w : W) (out : Output ⊎ AgentError) (r : Run W) (calls : List (LogCall c))
      (f : File)
      → g.has_audit ≡ true
      → run g input w ≡ some (out, r)
      → bodies_onto c [] calls ≡ entries_of r.actions
      → All (CanWrite c) calls
      → Solid c (lines f)
      → (contents f).rest ≡ []
      → Verifies c f
      → let after = (log_all c calls new_logger f).1 in
        Verifies c after × (bodies_in c after ≡ history g r.actions ++ bodies_in c f)
  run-IsOnFile input w out r calls f audits ran logged can solid whole verifies = (
    log_all-Verifies c calls f (CanWrite-CanLog c calls can) solid whole verifies,
    log_all-bodies c calls new_logger f can (new_logger-IsSound c f solid whole verifies)
        ∙ bodies_onto-append c [] (bodies_in c f) calls
        ∙ ap (λ bs. bs ++ bodies_in c f) (logged ∙ run-Trail g input w out r audits ran),
  )
