-- ===== src/Tools/Files.antt =====
-- tools/builtin/fs/: the four file tools on a backend, and the backend in memory. A backend is a
-- record of operations on a world.
pub mod Laws
pub mod Keeps
pub mod Disk
mod Tests
use deepagent.Base.{Bool, true, false, ◌||◌, Option, none, some, List, [], ◌∷◌, ◌++◌, if◌then◌else◌}
use deepagent.Base.Text.{Str, lit, len, is_empty}
use deepagent.Tools.Value.{
  Value, string, int, strings, object, Fields, no_field, field, Args, arg, as_string,
}
use deepagent.Agent.Types.{Result, ok, err}
use deepagent.Memory.{find, insert, keys}

-- `Backend`; a write and an edit return their error.
pub record Backend (W : Type 0) : Type 0 where
  pub list : Str → W → Result (List Str)
  pub read : Str → W → Result Str
  pub write : Str → Str → W → Option Str × W
  pub edit : Str → Str → W → Option Str × W

-- `InMemoryBackend.files`
abbrev pub Files : Type 0
Files = List (Str × Str)

abbrev pub found : Option Str → Result Str
found none = err (lit "file does not exist")
found (some content) = ok content

abbrev edited : Option Str → Str → Str
edited none instructions = lit "// New file: " ++ instructions
edited (some content) instructions = content ++ lit "\n// Edited: " ++ instructions

unfoldable pub in_memory_backend : Backend Files
unfolding find insert keys
in_memory_backend = record {
  list = λ path files. ok (keys files);
  read = λ path files. found (find files path);
  write = λ path content files. (none, insert files path content);
  edit =
      λ path instructions files. (none, insert files path (edited (find files path) instructions));
}

abbrev pub text_arg : Args → Str → Option Str
text_arg args key = as_string (arg args key)

module _ {W : Type 0} (b : Backend W) where
  abbrev listed : Str → Result (List Str) → Result Value
  listed path (err e) = err e
  listed path (ok files) =
      ok (object (field (lit "path") (string path) (field (lit "files") (strings files) no_field)))

  abbrev path_or_dot : Option Str → Str
  path_or_dot none = lit "."
  path_or_dot (some p) = if is_empty p then lit "." else p

  unfoldable pub ls : Args → W → Result Value × W
  ls args w =
      let path = path_or_dot (text_arg args (lit "path")) in (listed path (b.list path w), w)

  abbrev pub shown : Str → Result Str → Result Value
  shown path (err e) = err e
  shown path (ok content) =
      ok (
        object (field (lit "path") (string path) (field (lit "content") (string content) no_field)))

  abbrev pub read_path : Option Str → W → Result Value × W
  read_path none w = (err (lit "path is required"), w)
  read_path (some path) w =
      if is_empty path then (err (lit "path is required"), w) else (shown path (b.read path w), w)

  unfoldable pub read_file : Args → W → Result Value × W
  read_file args w = read_path (text_arg args (lit "path")) w

  abbrev pub written : Str → Str → Option Str × W → Result Value × W
  written path content (some e, w) = (err e, w)
  written path content (none, w) = (
    ok (
        object (
          field (lit "path") (string path) (
            field (lit "status") (string (lit "written"))
              (field (lit "length") (int (len content)) no_field)))),
    w,
  )

  abbrev pub write_path : Option Str → Option Str → W → Result Value × W
  write_path (some path) (some content) w =
      let done = written path content (b.write path content w) in
      if is_empty path then (err (lit "path and content are required"), w) else done
  write_path _ _ w = (err (lit "path and content are required"), w)

  unfoldable pub write_file : Args → W → Result Value × W
  write_file args w = write_path (text_arg args (lit "path")) (text_arg args (lit "content")) w

  abbrev told : Str → Str → Option Str × W → Result Value × W
  told path instructions (some e, w) = (err e, w)
  told path instructions (none, w) = (
    ok (
        object (
          field (lit "path") (string path) (
            field (lit "status") (string (lit "edited"))
              (field (lit "instructions") (string instructions) no_field)))),
    w,
  )

  abbrev edit_path : Option Str → Option Str → W → Result Value × W
  edit_path (some path) (some instructions) w =
      let done = told path instructions (b.edit path instructions w) in
      if is_empty path || is_empty instructions
      then (err (lit "path and instructions are required"), w)
      else done
  edit_path _ _ w = (err (lit "path and instructions are required"), w)

  unfoldable pub edit_file : Args → W → Result Value × W
  edit_file args w = edit_path (text_arg args (lit "path")) (text_arg args (lit "instructions")) w
