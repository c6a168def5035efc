-- ===== src/Tools/Sandbox/Output.antt =====
-- tools/builtin/sandbox.go: the bound on the output.
use deepagent.Base.{
  ℕ, ◌+◌, ◌≤◌, ◌≢◌, arith, inl, inr, Option, none, some, List, [], ◌∷◌, ltb, take, length,
  length-append, length-take, Bool-cases,
}
use deepagent.Base.Text.{Str, lit, is_empty, contains_any, trim_space, fields}
use deepagent.Agent.Types.{Result, ok, err}
use deepagent.Tools.Sandbox.{ExecuteConfig, Command, Host, Shell, start}
use deepagent.Tools.Sandbox.Execute.{
  Executed, returned, panicked, unsafe_syntax, truncate, report, run_built, run_prepared,
  run_checked, run_parts, execute, call_deadlines, prepare, mode_of, check_parts,
}

module _ {W : Type 0} (h : Host W) (c : ExecuteConfig) where
  truncate-length :
      (out : List ℕ) → c.max_output_size ≢ 0 → length (truncate h c out) ≤ c.max_output_size + 24
  unfolding truncate
  truncate-length out bound = elim (Bool-cases (ltb c.max_output_size (length out))) [
    | inl long ↦
        let cut = length-append (take c.max_output_size out) (lit "\n...output truncated...\n") in
        let kept = length-take c.max_output_size out in ground (arith, cut, kept)
    | inr short ↦ ground arith
  ]

  -- At most the bound and the notice of the cut, 24 bytes.
  abbrev pub IsBounded : Executed → Type 0
  IsBounded (returned out e) = c.max_output_size ≢ 0 → length out ≤ c.max_output_size + 24
  IsBounded panicked = Unit

  report-IsBounded : (r : (List ℕ × Option Str) × Shell W) → IsBounded (report h c r).0
  unfolding report
  report-IsBounded ((out, e), s) = truncate-length out

  run_built-IsBounded : (r : Result Command) (s : Shell W) → IsBounded (run_built h c r s).0
  unfolding run_built
  run_built-IsBounded (err e) s = λ bound. omega arith
  run_built-IsBounded (ok cmd) s =
      report-IsBounded (start h (record cmd { deadlines = call_deadlines h c }) s)

  run_prepared-IsBounded :
      (name : Str) (args : List Str) (r : Option Str × Shell W)
      → IsBounded (run_prepared h c name args r).0
  unfolding run_prepared
  run_prepared-IsBounded name args (some e, s) = λ bound. omega arith
  run_prepared-IsBounded name args (none, s) = run_built-IsBounded _ s

  run_checked-IsBounded :
      (o : Option Str) (name : Str) (args : List Str) (s : Shell W)
      → IsBounded (run_checked h c o name args s).0
  unfolding run_checked
  run_checked-IsBounded (some e) name args s = λ bound. omega arith
  run_checked-IsBounded none name args s =
      run_prepared-IsBounded name args (prepare h c (mode_of h c) s)

  run_parts-IsBounded : (parts : List Str) (s : Shell W) → IsBounded (run_parts h c parts s).0
  unfolding run_parts
  run_parts-IsBounded [] s = tt
  run_parts-IsBounded (name ∷ args) s =
      run_checked-IsBounded (check_parts h c name args) name args s

  -- When an output size is configured, no output of `Execute`, successful or not, is longer than
  -- that size and the 24 bytes of the notice.
  pub execute-IsBounded : (text : Str) (s : Shell W) → IsBounded (execute h c text s).0
  unfolding execute
  execute-IsBounded text s = elim (Bool-cases (is_empty (trim_space text))) [
    | inl blank ↦ rw blank (λ bound. omega arith)
    | inr solid ↦ elim (Bool-cases (contains_any (trim_space text) unsafe_syntax)) [
      | inl bad ↦ rw (solid, bad) (λ bound. omega arith)
      | inr good ↦ rw (solid, good) (run_parts-IsBounded (fields (trim_space text)) s)
    ]
  ]
