-- ===== src/Tools/Files/Disk.antt =====
-- tools/builtin/fs/disk.go: the backend on a disk. The operating system is a record of functions of
-- the world.
pub mod Below
mod Tests
use deepagent.Base.{
  Bool, true, false, not, ◌&&◌, ◌||◌, Option, none, some, List, [], ◌∷◌, ◌++◌, if◌then◌else◌,
}
use deepagent.Base.Text.{Str, lit, is_empty, contains, has_prefix}
use deepagent.Base.Path.{is_abs, clean, join}
use deepagent.Agent.Types.{Result, ok, err}
use deepagent.Tools.Files.{Backend}

-- An error of the system, and whether `os.IsNotExist` holds of it.
pub record OsError : Type 0 where
  pub text : Str
  pub is_not_exist : Bool

pub data Answer (A : Type 0) : Type 0 where
  done : A → Answer A
  failed : OsError → Answer A

-- `os.ReadDir` (the names), `os.ReadFile`, `os.WriteFile` and `os.Rename`; the last two give the text
-- of their error.
pub record Os (W : Type 0) : Type 0 where
  pub read_dir : Str → W → Answer (List Str)
  pub read_file : Str → W → Answer Str
  pub write_file : Str → Str → W → Option Str × W
  pub rename : Str → Str → W → Option Str × W

abbrev pub or_here : Str → Str
or_here path = if is_empty path then lit "." else path

abbrev pub is_refused : Str → Str → Bool
is_refused root cleaned =
    contains cleaned (lit "..") || (is_abs cleaned && not (has_prefix cleaned root))

unfoldable pub safe_path : Str → Str → Result Str
unfolding clean join
safe_path root path =
    let cleaned = clean (or_here path) in
    if is_refused root cleaned
    then err (lit "path traversal not allowed: " ++ path)
    else ok (join root cleaned)

module _ {W : Type 0} (os : Os W) (root : Str) where
  abbrev pub names_of : Answer (List Str) → Result (List Str)
  names_of (done names) = ok names
  names_of (failed e) = if e.is_not_exist then ok [] else err e.text

  abbrev pub list_at : Result Str → W → Result (List Str)
  list_at (err e) w = err e
  list_at (ok full) w = names_of (os.read_dir full w)

  abbrev pub content_of : Answer Str → Result Str
  content_of (done content) = ok content
  content_of (failed e) = err e.text

  abbrev pub read_at : Result Str → W → Result Str
  read_at (err e) w = err e
  read_at (ok full) w = content_of (os.read_file full w)

  -- the rename after the write of the temporary file
  abbrev pub renamed : Str → Option Str × W → Option Str × W
  renamed full (some e, w) = (some e, w)
  renamed full (none, w) = os.rename (full ++ lit ".tmp") full w

  abbrev pub write_at : Result Str → Str → W → Option Str × W
  write_at (err e) content w = (some e, w)
  write_at (ok full) content w = renamed full (os.write_file (full ++ lit ".tmp") content w)

  -- the content to edit, empty where the file is missing
  abbrev pub to_edit : Answer Str → Result Str
  to_edit (done content) = ok content
  to_edit (failed e) = if e.is_not_exist then ok [] else err e.text

  abbrev pub edit_with : Str → Str → Result Str → W → Option Str × W
  edit_with path instructions (err e) w = (some e, w)
  edit_with path instructions (ok content) w =
      write_at (safe_path root path)
        (content ++ (lit "\n// Edited by instructions: " ++ instructions)) w

  abbrev pub edit_at : Str → Str → Result Str → W → Option Str × W
  edit_at path instructions (err e) w = (some e, w)
  edit_at path instructions (ok full) w =
      edit_with path instructions (to_edit (os.read_file full w)) w

  unfoldable pub disk_backend : Backend W
  unfolding safe_path
  disk_backend = record {
    list = λ path w. list_at (safe_path root path) w;
    read = λ path w. read_at (safe_path root path) w;
    write = λ path content w. write_at (safe_path root path) content w;
    edit = λ path instructions w. edit_at path instructions (safe_path root path) w;
  }
