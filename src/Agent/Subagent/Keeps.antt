-- ===== src/Agent/Subagent/Keeps.antt =====
-- agent/subagent.go: a property of the world that the run of a sub-agent and the parent's backend
-- keep, the `task` tool keeps.
use deepagent.Base.{Option, none, some, Bool-cases, inl, inr}
use deepagent.Base.Text.{Str, is_empty}
use deepagent.Tools.Value.{Value, Args}
use deepagent.Tools.Files.{Backend}
use deepagent.Tools.Files.Keeps.{BackendKeeps}
use deepagent.Agent.Types.{Result, ok, err, Output}
use deepagent.Agent.Subagent.{Unicode, merge, merge_run, run_task, task}

module _ {W : Type 0} (P : W → Type 0) (u : Unicode) (b : Backend W) (quote : Str → Str)
    (run_agent : Str → Str → W → Result Output × W) (value_of : Output → Value)
    (k : BackendKeeps P b)
    (runs : (prompt description : Str) (w : W) → P w → P (run_agent prompt description w).1) where
  merge-Keeps :
      (description : Str) (out : Output) (r : Result Str) (w : W)
      → P w
      → P (merge u b quote run_agent value_of description out r w).1
  merge-Keeps description out (err e) w h = h
  merge-Keeps description out (ok file) w h = k.write file _ w h

  merge_run-Keeps :
      (description : Str) (done : Result Output × W)
      → P done.1
      → P (merge_run u b quote run_agent value_of description done).1
  merge_run-Keeps description (err e, w) h = h
  merge_run-Keeps description (ok out, w) h = merge-Keeps description out _ w h

  run_task-Keeps : (o : Option Str) (w : W) → P w → P (run_task u b quote run_agent value_of o w).1
  run_task-Keeps none w h = h
  run_task-Keeps (some description) w h = elim (Bool-cases (is_empty description)) [
    | inl blank ↦ rw blank h
    | inr solid ↦ rw solid (merge_run-Keeps description _ (runs _ description w h))
  ]

  pub task-Keeps : (args : Args) (w : W) → P w → P (task u b quote run_agent value_of args w).1
  unfolding task
  task-Keeps args w h = run_task-Keeps _ w h
