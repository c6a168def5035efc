-- ===== src/Tools/Builtin/Tests.antt =====
-- Calls of the other built-in tools.
use deepagent.Base.{ℕ, ◌≡◌, refl, some, [], ◌∷◌}
use deepagent.Base.Text.{lit, str_eq}
use deepagent.Tools.Value.{string, no_field, field, get}
use deepagent.Agent.Types.{err}
use deepagent.Memory.{find, insert}
use deepagent.Tools.Builtin.{execute, load_skill, load_all, without_md}

-- A command that fails with some output.
failed_command :
    (execute
      (λ cmd (w : ℕ). ((lit "half", some (lit "exit status 1")), w))
      (some (field (lit "command") (string (lit "make")) no_field))
      0).0
    ≡ err (lit "execute failed: exit status 1; output: half")
unfolding execute get str_eq
failed_command = refl

unknown_skill :
    load_skill [] (some (field (lit "name") (string (lit "go")) no_field))
    ≡ err (lit "skill go not found")
unfolding load_skill get str_eq find
unknown_skill = refl

two_skills :
    load_all [] ((lit "go.md", lit "1") ∷ (lit "c.md.md", lit "2") ∷ [])
    ≡ (lit "go", lit "1") ∷ (lit "c.md", lit "2") ∷ []
unfolding load_all str_eq without_md insert
two_skills = refl
