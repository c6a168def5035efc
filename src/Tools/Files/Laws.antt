-- ===== src/Tools/Files/Laws.antt =====
-- tools/builtin/fs/: what is written with a tool is read with another.
use deepagent.Base.{◌≡◌, ◌≢◌, refl, ap, ◌∙◌, false, Option, none, some, [], ◌∷◌, if◌then◌else◌}
use deepagent.Base.Text.{Str, lit, str_eq, str_eq_refl}
use deepagent.Tools.Value.{Value, string, object, no_field, field, Args}
use deepagent.Agent.Types.{ok}
use deepagent.Memory.{find, insert, find-insert}
use deepagent.Tools.Files.{
  Backend, Files, found, text_arg, written, write_path, shown, read_path, in_memory_backend,
  read_file, write_file,
}

-- What the tools rely on: a write that returns no error is read back, and does not touch the other
-- files.
pub record IsFaithful {W : Type 0} (b : Backend W) : Type 0 where
  pub read_back :
      (path content : Str) (w : W)
      → (b.write path content w).0 ≡ none
      → b.read path (b.write path content w).1 ≡ ok content
  pub others :
      (path content other : Str) (w : W)
      → str_eq path other ≡ false
      → b.read other (b.write path content w).1 ≡ b.read other w

found-same :
    (files : Files) (path content : Str) → find (insert files path content) path ≡ some content
found-same files path content =
    find-insert files path content path
    ∙ ap (λ t. if t then some content else find files path) (str_eq_refl path)

found-other :
    (files : Files) (path content other : Str)
    → str_eq path other ≡ false
    → find (insert files path content) other ≡ find files other
found-other files path content other differ =
    find-insert files path content other
    ∙ ap (λ t. if t then some content else find files other) differ

-- The backend in memory reads back what is written to it, and a write leaves the other files.
pub in_memory_backend-IsFaithful : IsFaithful in_memory_backend
unfolding in_memory_backend
in_memory_backend-IsFaithful = record {
  read_back = λ path content files written. ap found (found-same files path content);
  others =
      λ path content other files differ. ap found (found-other files path content other differ);
}

module _ {W : Type 0} (b : Backend W) where
  written-world :
      (path content : Str) (done : Option Str × W) → (written b path content done).1 ≡ done.1
  written-world path content (none, w) = refl
  written-world path content (some e, w) = refl

  written-ok :
      (path content : Str) (done : Option Str × W) (value : Value)
      → (written b path content done).0 ≡ ok value
      → done.0 ≡ none
  written-ok path content (none, w) value h = refl
  written-ok path content (some e, w) value h = cc

  -- What a call of `write_file` that succeeds has done.
  abbrev pub Wrote : Args → W → W → Type 0
  Wrote args w w' =
      (path : Str) × (content : Str) × (text_arg args (lit "path") ≡ some path)
      × (text_arg args (lit "content") ≡ some content)
      × (path ≢ [])
      × ((b.write path content w).0 ≡ none)
      × (w' ≡ (b.write path content w).1)

  write_path-Wrote :
      (p t : Option Str) (w : W) (value : Value)
      → (write_path b p t w).0 ≡ ok value
      → (path : Str) × (content : Str) × (p ≡ some path)
        × (t ≡ some content)
        × (path ≢ [])
        × ((b.write path content w).0 ≡ none)
        × ((write_path b p t w).1 ≡ (b.write path content w).1)
  write_path-Wrote none t w value h = cc
  write_path-Wrote (some path) none w value h = cc
  write_path-Wrote (some []) (some content) w value h = cc
  write_path-Wrote (some (c ∷ path)) (some content) w value h = (
    c ∷ path,
    content,
    refl,
    refl,
    (λ e. cc),
    written-ok (c ∷ path) content _ value h,
    written-world (c ∷ path) content _,
  )

  -- A call of `write_file` that returns a result has written the text arguments `content` to the
  -- path `path`, which is not empty, and has done nothing else.
  pub write_file-Wrote :
      (args : Args) (w : W) (value : Value)
      → (write_file b args w).0 ≡ ok value
      → Wrote args w (write_file b args w).1
  unfolding write_file
  write_file-Wrote args w value h =
      write_path-Wrote (text_arg args (lit "path")) (text_arg args (lit "content")) w value h

  read_path-ok :
      (path content : Str) (w : W)
      → path ≢ []
      → b.read path w ≡ ok content
      → read_path b (some path) w ≡ (
        ok (
            object
              (field (lit "path") (string path) (field (lit "content") (string content) no_field))),
        w,
      )
  read_path-ok [] content w solid h = absurd (solid refl)
  read_path-ok (c ∷ path) content w solid h = ap (λ r. (shown b (c ∷ path) r, w)) h

  -- On a faithful backend, after a call of `write_file` that returns a result, a call of
  -- `read_file` with the same path returns the path and the content that was written.
  pub read_file-write_file :
      (faithful : IsFaithful b) (args args' : Args) (w : W) (value : Value)
      → (write_file b args w).0 ≡ ok value
      → text_arg args' (lit "path") ≡ text_arg args (lit "path")
      → (path : Str) × (content : Str) × (text_arg args (lit "path") ≡ some path)
        × (text_arg args (lit "content") ≡ some content)
        × (read_file b args' (write_file b args w).1 ≡ (
          ok (
              object (
                field
                  (lit "path")
                  (string path)
                  (field (lit "content") (string content) no_field))),
          (write_file b args w).1,
        ))
  unfolding read_file
  read_file-write_file faithful args args' w value h same =
      let (path, content, at_path, at_content, solid, no_error, after) =
        write_file-Wrote args w value h in
      let there : b.read path (write_file b args w).1 ≡ ok content =
        ap (b.read path) after ∙ faithful.read_back path content w no_error in
      (
        path,
        content,
        at_path,
        at_content,
        ap (λ p. read_path b p (write_file b args w).1) (same ∙ at_path)
            ∙ read_path-ok path content (write_file b args w).1 solid there,
      )
