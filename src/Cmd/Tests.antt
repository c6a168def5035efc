-- ===== src/Cmd/Tests.antt =====
-- Runs of the program on small files.
use deepagent.Base.{◌≡◌, refl, false, Option, none, some, List, [], ◌∷◌, if◌then◌else◌}
use deepagent.Base.Text.{Str, lit, len, str_eq, trim, is_space}
use deepagent.Agent.Types.{ok}
use deepagent.Agent.Audit.Logger.{scanned, new_logger}
use deepagent.Agent.Audit.Forget.{whole_file}
use deepagent.Agent.Audit.Verify.{verify}
use deepagent.Agent.Audit.History.{log_all}
use deepagent.Agent.Audit.Tests.{codec, two_events, two_calls}
use deepagent.Agent.Construction.{Env}
use deepagent.Cmd.{Flags, Shell, run_audit}
use deepagent.Cmd.Accepts.{IsTrusted, run_audit-IsTrusted}

-- The file `empty` has no lines, the file `bad` one that is not JSON, and others are missing.
abbrev shell : Shell
shell = record {
  parse = λ args. elim args [
    | [] ↦ ok (record { file = []; strict = false })
    | a ∷ _ ↦ ok (record { file = a; strict = false })
  ];
  lines_of = λ file.
      if str_eq file (lit "empty")
      then some []
      else if str_eq file (lit "bad")
      then some (lit "x" ∷ [])
      else none;
  show = λ e. lit "error";
}

abbrev nowhere : Env
nowhere name = []

no_file : (run_audit codec shell nowhere []).code ≡ 2
unfolding run_audit trim is_space
no_file = refl

empty_file : (run_audit codec shell nowhere (lit " empty " ∷ [])).code ≡ 0
unfolding run_audit verify str_eq trim is_space
empty_file = refl

missing_file :
    (run_audit codec shell nowhere (lit "gone" ∷ [])).error
    ≡ lit "audit chain verification failed: error\n"
unfolding run_audit verify str_eq trim is_space
missing_file = refl

-- The file `log` holds what a logger left after two more events.
abbrev logged : Option (List Str)
logged = scanned (log_all codec two_calls new_logger (some (whole_file two_events))).1

abbrev log_shell : Shell
log_shell = record shell { lines_of = λ file. if str_eq file (lit "log") then logged else none }

abbrev log_flags : Flags
log_flags = record { file = lit "log"; strict = false }

abbrev log_args : List Str
log_args = lit "log" ∷ []

abbrev four_events : List Str
four_events = (5 ∷ []) ∷ (7 ∷ 5 ∷ 5 ∷ []) ∷ (5 ∷ 7 ∷ 7 ∷ []) ∷ (7 ∷ 5 ∷ 5 ∷ []) ∷ []

-- The same file in the strict mode, which the environment asks for.
abbrev strict_env : Env
strict_env name = if str_eq name (lit "DEEPAGENT_HITL_AUDIT_STRICT") then lit "TRUE" else []

abbrev strict_shell : Shell
strict_shell = record shell {
  lines_of = λ file. if str_eq file (lit "log") then some two_events else none;
}

strict-zero : (run_audit codec strict_shell strict_env log_args).code ≡ 0
unfolding run_audit verify str_eq trim is_space len
strict-zero = refl

run_audit-IsTrusted_example :
    (flags : Flags) × (strict_shell.parse log_args ≡ ok flags)
    × IsTrusted codec strict_shell strict_env flags
run_audit-IsTrusted_example = run_audit-IsTrusted codec strict_shell strict_env log_args strict-zero
