-- ===== src/Agent/Checkpointer/Runs.antt =====
-- agent/checkpointer.go with agent/graph.go: runs on the file checkpointer.
mod Tests
use deepagent.Base.{
  ◌≡◌, ◌≢◌, refl, ap, ◌∙◌, ◌⊎◌, inl, Bool, true, Option, none, some, List, [], ◌++◌, if◌then◌else◌,
}
use deepagent.Base.Text.{Str, lit, str_eq, str_eq_refl}
use deepagent.Agent.Types.{Result, ok, err, Input, State, Output, AgentError}
use deepagent.Agent.Graph.{Graph, Run}
use deepagent.Agent.Graph.Continuity.{LoadsSaved, run-Loaded, run-Continues}
use deepagent.Agent.Graph.Outcome.{EndsWell}
use deepagent.Agent.Graph.Turns.{run}
use deepagent.Agent.Checkpointer.{
  Library, Disk, done, validate_path_component, save, load, IsFaithful, load-accepted, load-save,
}

-- The disk in the world.
pub record HasDisk (W : Type 0) : Type 0 where
  pub disk : W → Disk
  pub with_disk : W → Disk → W
  pub disk-with_disk : (w : W) (d : Disk) → disk (with_disk w d) ≡ d

-- What is relied on of JSON for the states of a run: each can be written, and is read back.
pub record ReadsBack (lib : Library) : Type 0 where
  pub marshals : (s : State) → (text : Str) × (lib.marshal s ≡ ok text)
  pub faithful : (s : State) → IsFaithful lib s

module _ {W : Type 0} (world : HasDisk W) (lib : Library) (dir : Str) where
  -- A graph with `FileCheckpointer` on the directory, on a disk that works.
  abbrev pub on_files : Graph W → Graph W
  on_files g = record g {
    load = λ thread w. (load lib true dir thread (world.disk w), w);
    save = λ thread s w. world.with_disk w (save lib done dir thread s (world.disk w)).1;
  }

  module _ (json : ReadsBack lib) where
    accepted-save :
        (thread : Str) (s : State) (d : Disk)
        → validate_path_component lib thread (lit "thread_id") ≡ none
        → (save lib done dir thread s d).0 ≡ none
    unfolding save
    accepted-save thread s d valid =
        let (text, written) = json.marshals s in rw (valid, written) refl

    on_files-LoadsSaved :
        (g : Graph W) (thread : Str)
        → dir ≢ []
        → validate_path_component lib thread (lit "thread_id") ≡ none
        → LoadsSaved (on_files g) thread
    on_files-LoadsSaved g thread full valid = record {
      load_save = λ s w.
          let d = world.disk w in
          ap (load lib true dir thread) (world.disk-with_disk w (save lib done dir thread s d).1)
          ∙ load-save lib done dir thread thread s d (json.faithful s) full
              (accepted-save thread s d valid)
          ∙ ap (λ b. if b then ok (some s) else load lib true dir thread d) (str_eq_refl thread);
    }

    -- On a disk that works and in a directory that has a name, with JSON that reads back: after a run
    -- that answered, a run on the same thread starts from the messages of that answer followed by
    -- its own input, and ends well from there, as a final answer whose messages begin with these, or
    -- with an error whose cause is named.
    pub run-Reloads :
        (g : Graph W) (first second : Input) (w : W) (out : Output) (r : Run W)
        (out' : Output ⊎ AgentError) (r' : Run W)
        → dir ≢ []
        → run (on_files g) first w ≡ some (inl out, r)
        → second.thread_id ≡ first.thread_id
        → run (on_files g) second r.world ≡ some (out', r')
        → EndsWell
            (record r.state { messages = out.messages ++ second.messages })
            out'
            r'.actions
            r'.state
    run-Reloads g first second w out r out' r' full ran same ran' =
        let (o, found) = run-Loaded (on_files g) first w out r ran in
        let valid = load-accepted lib dir first.thread_id (world.disk w) o found in
        run-Continues (on_files g) first second w out r out' r'
          (on_files-LoadsSaved g first.thread_id full valid) ran same ran'
