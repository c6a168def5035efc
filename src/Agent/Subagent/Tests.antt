-- ===== src/Agent/Subagent/Tests.antt =====
-- A parent with one file and a sub-agent that answers, and the theorems about `task` at them.
use deepagent.Base.{◌==◌, ◌≡◌, refl, false, some, List, [], ◌∷◌, arith, if◌then◌else◌}
use deepagent.Base.Text.{Str, lit, str_eq, len, trim, is_space}
use deepagent.Base.Decimal.{itoa}
use deepagent.Tools.Value.{string, no_field, field, get, Args, arg, as_string}
use deepagent.Tools.Files.{Files, in_memory_backend}
use deepagent.Tools.Files.Laws.{in_memory_backend-IsFaithful}
use deepagent.Agent.Types.{Result, ok, Output}
use deepagent.Agent.Subagent.{Unicode, next_numbered, name_within, next_name, base_name, task}
use deepagent.Agent.Subagent.Task.{Merged, task-Merged}

abbrev ascii : Unicode
ascii = record { lower = λ c. if c == 83 then 115 else c; is_word = λ c. false }

abbrev asked : Str
asked = lit "Sum up / it!"

abbrev existing : List Str
existing = lit "subagent_sum-up-it.md" ∷ lit "notes.md" ∷ []

base : base_name ascii asked ≡ lit "sum-up-it"
unfolding base_name len trim is_space
base = refl

name : next_name (base_name ascii asked) existing ≡ some (lit "subagent_sum-up-it_2.md")
unfolding base_name next_name name_within str_eq len trim is_space next_numbered itoa
name = refl

abbrev parent : Files
parent = (lit "subagent_sum-up-it.md", lit "old") ∷ (lit "notes.md", []) ∷ []

abbrev answer : Output
answer = record { messages = []; final = lit "a sum"; thread_id = []; request_id = lit "1" }

abbrev answers : Str → Str → Files → Result Output × Files
answers prompt text files = (ok answer, files)

abbrev task_args : Args
task_args = some (field (lit "description") (string asked) no_field)

given : as_string (arg task_args (lit "description")) ≡ some asked
unfolding get str_eq
given = refl

listed : in_memory_backend.list (lit ".") parent ≡ ok existing
unfolding in_memory_backend
listed = refl

task-Merged_example :
    Merged in_memory_backend
      (λ out. string out.final)
      asked
      answer
      existing
      parent
      (task ascii in_memory_backend (λ t. t) answers (λ out. string out.final) task_args parent)
      (lit "notes.md")
task-Merged_example =
    task-Merged in_memory_backend ascii (λ t. t) answers (λ out. string out.final)
      in_memory_backend-IsFaithful task_args parent parent asked answer existing (lit "notes.md")
      given (λ e. cc) refl listed (omega arith)
