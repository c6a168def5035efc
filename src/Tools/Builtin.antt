-- ===== src/Tools/Builtin.antt =====
-- tools/builtin/execute.go, write_todos.go and skills.go: the other tools.
mod Tests
use deepagent.Base.{
  ℕ, zero, suc, Bool, true, false, Option, none, some, List, [], ◌∷◌, ◌++◌, if◌then◌else◌,
}
use deepagent.Base.Text.{Str, lit, is_empty, str_eq}
use deepagent.Tools.Value.{
  Value, string, boolean, array, object, value, no_value, no_field, field, Args, arg, as_string,
}
use deepagent.Agent.Types.{Result, ok, err}
use deepagent.Memory.{find, insert}

module _ {W : Type 0} (sandbox : Str → W → (Str × Option Str) × W) where
  abbrev pub ran : Str → (Str × Option Str) × W → Result Value × W
  ran cmd ((output, none), w) = (
    ok (
        object (
          field (lit "command") (string cmd)
            (field (lit "output") (string output) (field (lit "error") (boolean false) no_field)))),
    w,
  )
  ran cmd ((output, some e), w) =
      let failed : Str = lit "execute failed: " ++ e in
      (err (if is_empty output then failed else failed ++ (lit "; output: " ++ output)), w)

  abbrev pub execute_command : Option Str → W → Result Value × W
  execute_command none w = (err (lit "command is required"), w)
  execute_command (some cmd) w =
      let done = ran cmd (sandbox cmd w) in
      if is_empty cmd then (err (lit "command is required"), w) else done

  -- the `execute` tool on `sandbox.Execute`
  unfoldable pub execute : Args → W → Result Value × W
  execute args w = execute_command (as_string (arg args (lit "command"))) w

-- A `Todo` by its JSON.
abbrev pub todo : Str → Str → Str → Value
todo id description status = object (
    field (lit "id") (string id) (
      field (lit "description") (string description)
        (field (lit "status") (string status) no_field)))

-- The `write_todos` tool answers with the same list whatever it is told.
unfoldable pub write_todos : Args → Result Value
write_todos args = ok (
    array (
      value (todo (lit "1") (lit "Analyze task") (lit "done"))
        (value (todo (lit "2") (lit "Execute subtasks") (lit "pending")) no_value)))

-- `SkillsLoader.skills`
abbrev pub Skills : Type 0
Skills = List (Str × Str)

abbrev pub skill_found : Str → Option Str → Result Value
skill_found name none = err (lit "skill " ++ (name ++ lit " not found"))
skill_found name (some content) =
    ok (object (field (lit "name") (string name) (field (lit "content") (string content) no_field)))

abbrev pub skill_named : Skills → Option Str → Result Value
skill_named skills none = err (lit "skill name is required")
skill_named skills (some name) =
    let found = skill_found name (find skills name) in
    if is_empty name then err (lit "skill name is required") else found

-- the `load_skill` tool
unfoldable pub load_skill : Skills → Args → Result Value
load_skill skills args = skill_named skills (as_string (arg args (lit "name")))

-- `strings.TrimSuffix(name, ".md")`
unfoldable pub without_md : Str → Str
without_md [] = []
without_md (c ∷ s) = let rest = without_md s in if str_eq (c ∷ s) (lit ".md") then [] else c ∷ rest

-- `loadAll`: the files that match, by their base names, with what is read of them
unfoldable pub load_all : Skills → List (Str × Str) → Skills
unfolding without_md insert
load_all skills [] = skills
load_all skills ((base, content) ∷ files) = load_all (insert skills (without_md base) content) files

-- `GetAllSkillsContext`, in the order of Go's visit
unfoldable pub get_all_skills_context : Skills → Str
get_all_skills_context [] = []
get_all_skills_context ((name, content) ∷ skills) =
    lit "=== Skill: "
    ++ (name ++ (lit " ===\n" ++ (content ++ (lit "\n\n" ++ get_all_skills_context skills))))
