-- ===== src/Tools/Files/Disk/Tests.antt =====
-- Paths on a disk, and the theorem about accepted paths at one.
use deepagent.Base.{◌≡◌, refl, List, ◌++◌, All}
use deepagent.Base.Text.{Str, lit, str_eq, split_by, contains, has_prefix}
use deepagent.Base.Path.{named_parts, parts, is_abs, resolved, joined, clean}
use deepagent.Agent.Types.{ok, err}
use deepagent.Tools.Files.Disk.{safe_path}
use deepagent.Base.Path.Laws.{IsDown}
use deepagent.Tools.Files.Disk.Below.{safe_path-IsDown}

cleaned : clean (lit "/a//b/../c/.") ≡ lit "/a/c"
unfolding clean split_by named_parts str_eq joined
cleaned = refl

inside : safe_path (lit "./files") (lit "a//b/./c.txt") ≡ ok (lit "files/a/b/c.txt")
unfolding safe_path split_by named_parts str_eq joined contains has_prefix
inside = refl

refused :
    safe_path (lit "/srv") (lit "a/../../etc") ≡ err (lit "path traversal not allowed: a/../../etc")
unfolding safe_path split_by named_parts str_eq joined contains has_prefix
refused = refl

-- An absolute path in the root is accepted, and is taken below the root once more.
doubled : safe_path (lit "/srv") (lit "/srv/x") ≡ ok (lit "/srv/srv/x")
unfolding safe_path split_by named_parts str_eq joined contains has_prefix
doubled = refl

safe_path-IsDown_example :
    (more : List Str) × (is_abs (lit "files/a/b/c.txt") ≡ is_abs (lit "./files"))
    × (parts (lit "files/a/b/c.txt")
        ≡ resolved (is_abs (lit "./files")) (parts (lit "./files")) ++ more)
    × All IsDown more
safe_path-IsDown_example =
    safe_path-IsDown (lit "./files") (lit "a//b/./c.txt") (lit "files/a/b/c.txt") (λ e. cc) inside
