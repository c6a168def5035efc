-- ===== src/Cmd/Accepts.antt =====
-- cmd/deepagent-audit/main.go and agent/hitl_audit.go: the program on a file of the logger.
use deepagent.Base.{
  ◌≡◌, refl, sym, ap, ◌∙◌, Bool-cases, inl, inr, Bool, true, false, Option, none, some, List, [],
  arith,
}
use deepagent.Base.Text.{Str, is_empty}
use deepagent.Agent.Types.{Result, ok, err}
use deepagent.Agent.Audit.{Codec}
use deepagent.Agent.Audit.Verify.{Checked, pass, fail, Cursor, top, verify}
use deepagent.Agent.Audit.Tamper.{entries_onto}
use deepagent.Agent.Audit.Strict.{IsRegular, verify-strict}
use deepagent.Agent.Construction.{Env}
use deepagent.Cmd.{Exit, Flags, Shell, told, file_of, is_strict, run_with, run_audit}

module _ (c : Codec) (sh : Shell) (env : Env) where
  -- the exit of a verification that passes
  abbrev pub accepted : Str → Exit
  accepted file = told c sh env file (pass top)

  -- What an exit with 0 shows, for the flags that were parsed: their file can be opened and passes
  -- the lenient verification; in the strict mode its entries are complete and in the order of time.
  abbrev pub IsTrusted : Flags → Type 0
  IsTrusted flags =
      (ls : List Str) × (k : Cursor) × (sh.lines_of (file_of c sh env flags) ≡ some ls)
      × (verify c false (some ls) ≡ pass k)
      × (is_strict c sh env flags ≡ true → IsRegular c k (entries_onto c [] ls))

  told-zero :
      (file : Str) (o : Checked Cursor)
      → (told c sh env file o).code ≡ 0
      → (k : Cursor) × (o ≡ pass k)
  told-zero file (pass k) h = (k, refl)
  told-zero file (fail e) h = absurd (omega arith)

  verify-IsTrusted :
      (flags : Flags) (f : Option (List Str)) (k : Cursor) (strict : Bool)
      → is_strict c sh env flags ≡ strict
      → sh.lines_of (file_of c sh env flags) ≡ f
      → verify c strict f ≡ pass k
      → IsTrusted flags
  unfolding verify
  verify-IsTrusted flags none k strict mode stands h = cc
  verify-IsTrusted flags (some ls) k true mode stands h =
      let (lenient, regular) = verify-strict c ls k h in (ls, k, stands, lenient, λ _. regular)
  verify-IsTrusted flags (some ls) k false mode stands h = (ls, k, stands, h, λ e. cc)

  run_with-blank :
      (flags : Flags)
      → is_empty (file_of c sh env flags) ≡ true
      → (run_with c sh env (ok flags)).code ≡ 2
  run_with-blank flags blank = rw blank refl

  run_with-named :
      (flags : Flags)
      → is_empty (file_of c sh env flags) ≡ false
      → run_with c sh env (ok flags) ≡ (
          let file = file_of c sh env flags in
          told c sh env file (verify c (is_strict c sh env flags) (sh.lines_of file)))
  run_with-named flags named = rw named refl

  run_with-zero : (flags : Flags) → (run_with c sh env (ok flags)).code ≡ 0 → IsTrusted flags
  run_with-zero flags h = elim (Bool-cases (is_empty (file_of c sh env flags))) [
    | inl blank ↦ absurd (omega (arith, run_with-blank flags blank))
    | inr named ↦
        let (k, passes) = told-zero _ _ (sym (ap (λ d. d.code) (run_with-named flags named)) ∙ h) in
        verify-IsTrusted flags _ k _ refl refl passes
  ]

  exit-IsTrusted :
      (parsed : Result Flags)
      → (run_with c sh env parsed).code ≡ 0
      → (flags : Flags) × (parsed ≡ ok flags) × IsTrusted flags
  exit-IsTrusted (err e) h = absurd (omega arith)
  exit-IsTrusted (ok flags) h = (flags, refl, run_with-zero flags h)

  -- When the audit program exits with 0, its flags were parsed, and the file that they or the
  -- environment name can be opened and passes the lenient verification. In the strict mode the
  -- entries of the file are also complete and in the order of time.
  pub run_audit-IsTrusted :
      (args : List Str)
      → (run_audit c sh env args).code ≡ 0
      → (flags : Flags) × (sh.parse args ≡ ok flags) × IsTrusted flags
  unfolding run_audit
  run_audit-IsTrusted args h = exit-IsTrusted (sh.parse args) h
