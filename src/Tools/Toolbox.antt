-- ===== src/Tools/Toolbox.antt =====
-- tools/builtin/: the constructors of the built-in tools, with their names, descriptions and
-- schemas.
pub mod Execute
use deepagent.Base.{true, false, Option, none, some, List, [], ◌∷◌, ◌++◌}
use deepagent.Base.Text.{Str, lit}
use deepagent.Llms.Schema.{of_type}
use deepagent.Tools.Value.{Value, string, boolean, strings, object, Fields, no_field, field, Args}
use deepagent.Agent.Types.{Result}
use deepagent.Agent.Graph.{Tool}
use deepagent.Tools.Files.{Backend, ls, read_file, write_file, edit_file}
use deepagent.Tools.Builtin.{write_todos, Skills, load_skill}
use deepagent.Tools.Wrapping.{new_tool_with_parameters}

-- A property of the type "string" for each name.
abbrev pub text_properties : List Str → Fields
text_properties [] = no_field
text_properties (name ∷ names) =
    field name (object (of_type (lit "string"))) (text_properties names)

-- The entry `required`, a `[]string`, where there is one.
abbrev pub with_required : List Str → Fields → Fields
with_required [] rest = rest
with_required (r ∷ rs) rest = field (lit "required") (strings (r ∷ rs)) rest

-- The schema of an object with text properties, of which some are required, and no others.
abbrev pub text_schema : (names required : List Str) → Value
text_schema names required = object (
    field (lit "type") (string (lit "object")) (
      field (lit "properties") (object (text_properties names))
        (with_required required (field (lit "additionalProperties") (boolean false) no_field))))

abbrev pub any_schema : Value
any_schema = object (
    field (lit "type") (string (lit "object")) (
      field (lit "properties") (object no_field)
        (field (lit "additionalProperties") (boolean true) no_field)))

module _ {W : Type 0} where
  abbrev pub new_write_todos_tool : Tool W
  new_write_todos_tool =
      new_tool_with_parameters (lit "write_todos")
        (lit "Break down complex task into a trackable todo list. Return structured JSON.")
        any_schema (λ args w. (write_todos args, w))

  abbrev pub new_load_skills_tool : Skills → Tool W
  new_load_skills_tool skills =
      new_tool_with_parameters (lit "load_skill")
        (lit "Load a skill from the skills directory by name.")
        (text_schema (lit "name" ∷ []) (lit "name" ∷ [])) (λ args w. (load_skill skills args, w))

  module _ (b : Backend W) where
    abbrev pub new_ls_tool : Tool W
    new_ls_tool =
        new_tool_with_parameters (lit "ls")
          (lit "List files and directories in the virtual filesystem. "
            ++ lit "Args: path (optional, default: '.')")
          (text_schema (lit "path" ∷ []) []) (ls b)

    abbrev pub new_read_file_tool : Tool W
    new_read_file_tool =
        new_tool_with_parameters (lit "read_file")
          (lit "Read the content of a file. Args: path (required)")
          (text_schema (lit "path" ∷ []) (lit "path" ∷ [])) (read_file b)

    abbrev pub new_write_file_tool : Tool W
    new_write_file_tool =
        new_tool_with_parameters (lit "write_file")
          (lit "Write content to a file (create or overwrite). "
            ++ lit "Args: path (required), content (required)")
          (text_schema (lit "path" ∷ lit "content" ∷ []) (lit "path" ∷ lit "content" ∷ []))
          (write_file b)

    abbrev pub new_edit_file_tool : Tool W
    new_edit_file_tool =
        new_tool_with_parameters (lit "edit_file")
          (lit "Edit a file using natural language instructions (LLM-assisted). "
            ++ lit "Args: path (required), instructions (required)")
          (text_schema (lit "path" ∷ lit "instructions" ∷ [])
            (lit "path" ∷ lit "instructions" ∷ []))
          (edit_file b)
