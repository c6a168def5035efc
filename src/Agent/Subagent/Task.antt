-- ===== src/Agent/Subagent/Task.antt =====
-- agent/subagent.go: what a call of `task` leaves in the parent's files.
use deepagent.Base.{
  ◌<◌, ◌≡◌, ◌≢◌, ◌⊎◌, inl, inr, refl, ap, sym, ◌∙◌, false, some, List, [], ◌∷◌, ◌++◌, length,
  if◌then◌else◌, Bool-cases, Option-cases,
}
use deepagent.Base.Text.{Str, lit, str_eq, str_eq_iff}
use deepagent.Tools.Value.{Value, Args, arg, as_string}
use deepagent.Tools.Files.{Backend}
use deepagent.Tools.Files.Laws.{IsFaithful}
use deepagent.Agent.Types.{Result, ok, Output}
use deepagent.Agent.Subagent.{
  Unicode, is_taken, base_name, named, name_among, next_subagent_result_file, merge_content,
  merged_value, merge, task,
}
use deepagent.Agent.Subagent.Names.{next_name-IsFree}
use deepagent.Agent.Subagent.Plain.{IsFileName, next_name-IsFileName}

-- The prompt of the sub-agent.
abbrev pub prompt : Str → Str
prompt description = lit "You are a focused sub-agent. Task: " ++ description

module _ {W : Type 0} (b : Backend W) where
  -- How a call ends that merges the output: with a new file beside the existing ones.
  abbrev pub Merged :
      (Output → Value) → Str → Output → List Str → W → Result Value × W → Str → Type 0
  Merged value_of description out existing w done other =
      (file : Str) × (done.0 ≡ ok (merged_value value_of description file out))
      × (is_taken existing file ≡ false)
      × IsFileName file
      × ((b.read file done.1 ≡ ok (merge_content description out))
          ⊎ ((e : Str) × ((b.write file (merge_content description out) w).0 ≡ some e)))
      × (b.read other done.1 ≡ (if str_eq file other then b.read file done.1 else b.read other w))

  other_file :
      (faithful : IsFaithful b) (file content other : Str) (w : W)
      → b.read other (b.write file content w).1
        ≡ (if str_eq file other then b.read file (b.write file content w).1 else b.read other w)
  other_file faithful file content other w = elim (Bool-cases (str_eq file other)) [
    | inl same ↦
        let (there, _) = str_eq_iff file other in
        let equal : file ≡ other = there same in
        rw same (ap (λ name. b.read name (b.write file content w).1) (sym equal))
    | inr differ ↦ rw differ (faithful.others file content other w differ)
  ]

  own_file :
      (faithful : IsFaithful b) (file content : Str) (w : W)
      → (b.read file (b.write file content w).1 ≡ ok content)
        ⊎ ((e : Str) × ((b.write file content w).0 ≡ some e))
  own_file faithful file content w = elim (Option-cases (b.write file content w).0) [
    | inl written ↦ inl (faithful.read_back file content w written)
    | inr failed ↦ inr failed
  ]

  module _ (u : Unicode) (quote : Str → Str) (run_agent : Str → Str → W → Result Output × W)
      (value_of : Output → Value) where
    merge-Merged :
        (faithful : IsFaithful b) (description : Str) (out : Output) (existing : List Str) (w : W)
        (other : Str)
        → b.list (lit ".") w ≡ ok existing
        → length existing < 9999
        → Merged value_of description out existing w
            (merge u b quote run_agent value_of description out
              (next_subagent_result_file u b quote description w)
              w)
            other
    unfolding next_subagent_result_file
    merge-Merged faithful description out existing w other listed few =
        let (file, found, free) = next_name-IsFree (base_name u description) existing few in
        let name : next_subagent_result_file u b quote description w ≡ ok file =
          ap (name_among u b quote description) listed ∙ ap (named u b quote description) found in
        rw name (
          file,
          refl,
          free,
          next_name-IsFileName u description existing file found,
          own_file faithful file _ w,
          other_file faithful file _ other w,
        )

    -- When the sub-agent returns an output, and the parent's backend is faithful and lists fewer
    -- than 9999 files, a call of `task` with a description that is not empty reports the output and the name of a
    -- file: a plain file name, which is none of the listed ones. The file then reads as the merged
    -- content, unless the write returned an error; every other file reads as before.
    pub task-Merged :
        (faithful : IsFaithful b) (args : Args) (w w' : W) (description : Str) (out : Output)
        (existing : List Str) (other : Str)
        → as_string (arg args (lit "description")) ≡ some description
        → description ≢ []
        → run_agent (prompt description) description w ≡ (ok out, w')
        → b.list (lit ".") w' ≡ ok existing
        → length existing < 9999
        → Merged value_of description out existing w'
            (task u b quote run_agent value_of args w)
            other
    unfolding task
    task-Merged faithful args w w' [] out existing other given solid ran listed few =
        absurd (solid refl)
    task-Merged faithful args w w' (c ∷ d) out existing other given solid ran listed few =
        rw given (rw ran (merge-Merged faithful (c ∷ d) out existing w' other listed few))
