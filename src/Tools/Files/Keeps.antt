-- ===== src/Tools/Files/Keeps.antt =====
-- tools/builtin/fs/: a property of the world that the backend keeps, the file tools keep.
use deepagent.Base.{◌||◌, Option, none, some, Bool-cases, inl, inr}
use deepagent.Base.Text.{Str, is_empty}
use deepagent.Tools.Value.{Args}
use deepagent.Tools.Files.{
  Backend, ls, read_path, read_file, written, write_path, write_file, told, edit_path, edit_file,
}

module _ {W : Type 0} (P : W → Type 0) (b : Backend W) where
  pub record BackendKeeps : Type 0 where
    pub write : (path content : Str) (w : W) → P w → P (b.write path content w).1
    pub edit : (path instructions : Str) (w : W) → P w → P (b.edit path instructions w).1

  pub ls-Keeps : (args : Args) (w : W) → P w → P (ls b args w).1
  unfolding ls
  ls-Keeps args w h = h

  read_path-Keeps : (o : Option Str) (w : W) → P w → P (read_path b o w).1
  read_path-Keeps none w h = h
  read_path-Keeps (some path) w h = elim (Bool-cases (is_empty path)) [
    | inl blank ↦ rw blank h
    | inr solid ↦ rw solid h
  ]

  pub read_file-Keeps : (args : Args) (w : W) → P w → P (read_file b args w).1
  unfolding read_file
  read_file-Keeps args w h = read_path-Keeps _ w h

  written-Keeps :
      (path content : Str) (done : Option Str × W) → P done.1 → P (written b path content done).1
  written-Keeps path content (some e, w) h = h
  written-Keeps path content (none, w) h = h

  told-Keeps :
      (path instructions : Str) (done : Option Str × W)
      → P done.1
      → P (told b path instructions done).1
  told-Keeps path instructions (some e, w) h = h
  told-Keeps path instructions (none, w) h = h

  module _ (k : BackendKeeps) where
    write_path-Keeps : (o p : Option Str) (w : W) → P w → P (write_path b o p w).1
    write_path-Keeps none p w h = h
    write_path-Keeps (some path) none w h = h
    write_path-Keeps (some path) (some content) w h = elim (Bool-cases (is_empty path)) [
      | inl blank ↦ rw blank h
      | inr solid ↦ rw solid (written-Keeps path content _ (k.write path content w h))
    ]

    pub write_file-Keeps : (args : Args) (w : W) → P w → P (write_file b args w).1
    unfolding write_file
    write_file-Keeps args w h = write_path-Keeps _ _ w h

    edit_path-Keeps : (o p : Option Str) (w : W) → P w → P (edit_path b o p w).1
    edit_path-Keeps none p w h = h
    edit_path-Keeps (some path) none w h = h
    edit_path-Keeps (some path) (some instructions) w h =
        elim (Bool-cases (is_empty path || is_empty instructions)) [
          | inl blank ↦ rw blank h
          | inr solid ↦ rw solid (told-Keeps path instructions _ (k.edit path instructions w h))
        ]

    pub edit_file-Keeps : (args : Args) (w : W) → P w → P (edit_file b args w).1
    unfolding edit_file
    edit_file-Keeps args w h = edit_path-Keeps _ _ w h
