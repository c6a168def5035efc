-- ===== src/Cmd.antt =====
-- cmd/deepagent-audit/main.go: the program that verifies an audit file.
mod Accepts
mod Tests
use deepagent.Base.{ℕ, Bool, true, false, ◌||◌, Option, none, some, List, ◌++◌, if◌then◌else◌}
use deepagent.Base.Text.{Str, lit, is_empty, trim_space}
use deepagent.Agent.Types.{Result, ok, err}
use deepagent.Agent.Audit.{Codec}
use deepagent.Agent.Audit.Verify.{VerifyError, Checked, pass, fail, Cursor, verify}
use deepagent.Agent.Construction.{Env}
use deepagent.Agent.Create.{is_set}

-- The exit code, and what is written to the standard output and the standard error.
pub record Exit : Type 0 where
  pub code : ℕ
  pub out : Str
  pub error : Str

-- `flag.FlagSet.Parse`: the values of -file and -strict.
pub record Flags : Type 0 where
  pub file : Str
  pub strict : Bool

-- What is used of package flag, the lines of a file (`none` where it cannot be opened), and the
-- texts of the errors of the verification.
pub record Shell : Type 0 where
  pub parse : List Str → Result Flags
  pub lines_of : Str → Option (List Str)
  pub show : VerifyError → Str

module _ (c : Codec) (sh : Shell) (env : Env) where
  abbrev pub told : Str → Checked Cursor → Exit
  told file (pass _) = record {
    code = 0;
    out = lit "audit chain verification passed: " ++ (file ++ lit "\n");
    error = lit "";
  }
  told file (fail e) = record {
    code = 1;
    out = lit "";
    error = lit "audit chain verification failed: " ++ (sh.show e ++ lit "\n");
  }

  -- the flag, or the variable where it is blank
  abbrev pub file_of : Flags → Str
  file_of flags =
      if is_empty (trim_space flags.file)
      then trim_space (env (lit "DEEPAGENT_HITL_AUDIT_FILE"))
      else trim_space flags.file

  abbrev pub is_strict : Flags → Bool
  is_strict flags = flags.strict || is_set env (lit "DEEPAGENT_HITL_AUDIT_STRICT")

  abbrev pub run_with : Result Flags → Exit
  run_with (err e) = record { code = 2; out = lit ""; error = lit "error: " ++ (e ++ lit "\n") }
  run_with (ok flags) =
      let file = file_of flags in
      let verified = told file (verify c (is_strict flags) (sh.lines_of file)) in
      if is_empty file
      then record {
        code = 2;
        out = lit "";
        error = lit "error: audit file path is required (use -file or DEEPAGENT_HITL_AUDIT_FILE)\n";
      }
      else verified

  unfoldable pub run_audit : List Str → Exit
  unfolding verify
  run_audit args = run_with (sh.parse args)
