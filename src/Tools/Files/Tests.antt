-- ===== src/Tools/Files/Tests.antt =====
-- A small file system in memory, and the theorems about the file tools at it.
use deepagent.Base.{◌≡◌, refl, some, [], ◌∷◌}
use deepagent.Base.Text.{Str, lit, str_eq, len}
use deepagent.Tools.Value.{Value, string, int, object, no_field, field, get, Args}
use deepagent.Agent.Types.{ok}
use deepagent.Tools.Files.{Files, in_memory_backend, text_arg, write_file, read_file}
use deepagent.Tools.Files.Laws.{in_memory_backend-IsFaithful, read_file-write_file}

abbrev one_file : Files
one_file = (lit "a.txt", lit "old") ∷ []

abbrev write_args : Args
write_args = some (
    field (lit "path") (string (lit "a.txt")) (field (lit "content") (string (lit "new")) no_field))

abbrev read_args : Args
read_args = some (field (lit "path") (string (lit "a.txt")) no_field)

abbrev answer : Value
answer = object (
    field (lit "path") (string (lit "a.txt"))
      (field (lit "status") (string (lit "written")) (field (lit "length") (int 3) no_field)))

writes : (write_file in_memory_backend write_args one_file).0 ≡ ok answer
unfolding write_file in_memory_backend get str_eq len
writes = refl

same_path : text_arg read_args (lit "path") ≡ text_arg write_args (lit "path")
unfolding get str_eq
same_path = refl

read_file-write_file_example :
    (path : Str) × (content : Str) × (text_arg write_args (lit "path") ≡ some path)
    × (text_arg write_args (lit "content") ≡ some content)
    × (read_file in_memory_backend read_args (write_file in_memory_backend write_args one_file).1
        ≡ (
          ok (
              object (
                field
                  (lit "path")
                  (string path)
                  (field (lit "content") (string content) no_field))),
          (write_file in_memory_backend write_args one_file).1,
        ))
read_file-write_file_example =
    read_file-write_file in_memory_backend in_memory_backend-IsFaithful write_args read_args
      one_file answer writes same_path
