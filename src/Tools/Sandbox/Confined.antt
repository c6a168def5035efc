-- ===== src/Tools/Sandbox/Confined.antt =====
-- tools/builtin/sandbox.go: what `Execute` lets run.
use deepagent.Base.{
  ℕ, ◌≤◌, ◌≡◌, ◌≢◌, ◌⊎◌, refl, arith, inl, inr, true, false, Option, none, some, List, [], ◌∷◌, All,
  Bool-cases, length,
}
use deepagent.Base.Text.{
  Str, lit, len, str_eq, str_eq_iff, contains, contains_any, trim_space, fields,
}
use deepagent.Agent.Types.{Result, ok, err}
use deepagent.Tools.Sandbox.{ExecuteConfig, Command, Host, Exec, Shell, start}
use deepagent.Tools.Sandbox.Build.{build_command_for_mode}
use deepagent.Tools.Sandbox.Contained.{
  IsBuilt, build_process_command-IsProcess, build_container_command-IsContained,
}
use deepagent.Tools.Sandbox.Execute.{
  unsafe_syntax, allowed, check_args, check_parts, mode_of, is_container, call_deadlines,
  rootless_probe, signature_check, probed, require_rootless, validate_container_policy, verified,
  verify_image_signature, then_signature, prepare, run_built, run_prepared, run_checked, run_parts,
  execute, report,
}
use deepagent.Tools.Sandbox.Words.{Free, fields-Free}

err≢ok : {A : Type 0} {x : Str} {a : A} → err x ≢ ok a
err≢ok e = cc

module _ {W : Type 0} (h : Host W) (c : ExecuteConfig) where
  -- A bound that is 0 is none.
  abbrev pub Within : ℕ → ℕ → Type 0
  Within bound n = bound ≢ 0 → n ≤ bound

  abbrev pub IsArg : Str → Type 0
  IsArg arg = Within c.max_arg_length (len arg) × (contains arg (lit "..") ≡ false)

  -- The name is allowed, the arguments are within the bounds and do not climb, and no word has a
  -- sign of the shell.
  pub record IsVetted (name : Str) (args : List Str) : Type 0 where
    pub allowed : allowed c.allowed_commands name ≡ true
    pub few : Within c.max_args (length args)
    pub each : All IsArg args
    pub plain : All (Free unsafe_syntax) (name ∷ args)

  check_args-IsArg : (args : List Str) → check_args h c args ≡ none → All IsArg args
  unfolding check_args
  check_args-IsArg [] e = tt
  check_args-IsArg (arg ∷ args) e =
      (((λ p. ground arith), ground arith), check_args-IsArg args (ground arith))

  check_parts-IsVetted :
      (name : Str) (args : List Str)
      → check_parts h c name args ≡ none
      → All (Free unsafe_syntax) (name ∷ args)
      → IsVetted name args
  unfolding check_parts
  check_parts-IsVetted name args e plain = record {
    allowed = ground arith;
    few = λ p. ground arith;
    each = check_args-IsArg args (ground arith);
    plain = plain;
  }

  build_command-IsBuilt :
      (name : Str) (args : List Str) (w : W) (cmd : Command)
      → build_command_for_mode h c (mode_of h c) name args w ≡ ok cmd
      → IsBuilt h c name args cmd
  unfolding build_command_for_mode
  build_command-IsBuilt name args w cmd e =
      elim (Bool-cases (str_eq (mode_of h c) (lit "process"))) [
        | inl process ↦ inl (
          (str_eq_iff _ _).0 process,
          build_process_command-IsProcess h c name args w cmd (rw process at e),
        )
        | inr other ↦ elim (Bool-cases (is_container h c (mode_of h c))) [
          | inl container ↦ inr (
            container,
            build_container_command-IsContained h c (mode_of h c) name args w cmd
                (rw (other, container) at e),
          )
          | inr neither ↦ absurd (err≢ok (rw (other, neither) at e))
        ]
      ]

  -- A probe of the container runtime, a check of a signature, or what was built of vetted words.
  abbrev pub IsPermitted : Exec → Type 0
  IsPermitted e =
      (e.command ≡ rootless_probe h c)
      ⊎ ((e.command ≡ signature_check h c)
          ⊎ ((name : Str) × (args : List Str) × (cmd : Command) × IsVetted name args
              × IsBuilt h c name args cmd
              × (e.command ≡ record cmd { deadlines = call_deadlines h c })))

  abbrev pub IsConfined : Shell W → Type 0
  IsConfined s = All IsPermitted s.ran

  -- What has run is in `P`, which has all that is permitted.
  module _ (P : Exec → Type 0) (permits : (e : Exec) → IsPermitted e → P e) where
    abbrev pub Among : Shell W → Type 0
    Among s = All P s.ran

    start-Among :
        (cmd : Command) (s : Shell W)
        → ((e : Option Str) → IsPermitted (record { command = cmd; error = e }))
        → Among s
        → Among (start h cmd s).1
    unfolding start
    start-Among cmd s p before = (permits _ (p (h.combined_output cmd s.world).0.1), before)

    probed-Among : (r : (List ℕ × Option Str) × Shell W) → Among r.1 → Among (probed h c r).1
    probed-Among ((out, some e), s) k = k
    probed-Among ((out, none), s) k = k

    verified-Among : (r : (List ℕ × Option Str) × Shell W) → Among r.1 → Among (verified h c r).1
    verified-Among ((out, some e), s) k = k
    verified-Among ((out, none), s) k = k

    policy-Among : (s : Shell W) → Among s → Among (validate_container_policy h c s).1
    unfolding validate_container_policy require_rootless
    policy-Among s k =
        let probe = start h (rootless_probe h c) s in
        let p = probed-Among probe (start-Among (rootless_probe h c) s (λ e. inl refl) k) in
        ground (arith, p, k)

    signature-Among : (s : Shell W) → Among s → Among (verify_image_signature h c s).1
    unfolding verify_image_signature
    signature-Among s k =
        let checked = start h (signature_check h c) s in
        let p =
          verified-Among checked (start-Among (signature_check h c) s (λ e. inr (inl refl)) k) in
        ground (arith, p, k)

    then_signature-Among : (r : Option Str × Shell W) → Among r.1 → Among (then_signature h c r).1
    then_signature-Among (some e, s) k = k
    then_signature-Among (none, s) k = signature-Among s k

    prepare-Among : (mode : Str) (s : Shell W) → Among s → Among (prepare h c mode s).1
    unfolding prepare
    prepare-Among mode s k =
        let p = then_signature-Among (validate_container_policy h c s) (policy-Among s k) in
        ground (arith, p, k)

    run_built-Among :
        (name : Str) (args : List Str) (s : Shell W) (r : Result Command)
        → IsVetted name args
        → ((cmd : Command) → r ≡ ok cmd → IsBuilt h c name args cmd)
        → Among s
        → Among (run_built h c r s).1
    unfolding run_built report
    run_built-Among name args s (err e) vetted built k = k
    run_built-Among name args s (ok cmd) vetted built k =
        start-Among _ s (λ e. inr (inr (name, args, cmd, vetted, built cmd refl, refl))) k

    run_prepared-Among :
        (name : Str) (args : List Str) (r : Option Str × Shell W)
        → IsVetted name args
        → Among r.1
        → Among (run_prepared h c name args r).1
    unfolding run_prepared
    run_prepared-Among name args (some e, s) vetted k = k
    run_prepared-Among name args (none, s) vetted k =
        run_built-Among name args s _ vetted
          (λ cmd e. build_command-IsBuilt name args s.world cmd e) k

    run_checked-Among :
        (o : Option Str) (name : Str) (args : List Str) (s : Shell W)
        → (o ≡ none → IsVetted name args)
        → Among s
        → Among (run_checked h c o name args s).1
    unfolding run_checked
    run_checked-Among (some e) name args s vetted k = k
    run_checked-Among none name args s vetted k =
        run_prepared-Among name args (prepare h c (mode_of h c) s) (vetted refl)
          (prepare-Among (mode_of h c) s k)

    run_parts-Among :
        (parts : List Str) (s : Shell W)
        → All (Free unsafe_syntax) parts
        → Among s
        → Among (run_parts h c parts s).1
    unfolding run_parts
    run_parts-Among [] s plain k = k
    run_parts-Among (name ∷ args) s plain k =
        run_checked-Among _ name args s (λ e. check_parts-IsVetted name args e plain) k

    -- What `Execute` starts besides is permitted.
    pub execute-Among : (text : Str) (s : Shell W) → Among s → Among (execute h c text s).1
    unfolding execute
    execute-Among text s k = elim (Bool-cases (contains_any (trim_space text) unsafe_syntax)) [
      | inl bad ↦ ground (arith, k)
      | inr good ↦
          let p =
            run_parts-Among (fields (trim_space text)) s
              (fields-Free unsafe_syntax (trim_space text) good) k in
          ground (arith, p, k)
    ]

  -- Whatever the text, `Execute` starts nothing but the probe of the container runtime, the check
  -- of the image's signature, and a command that is built, for the configured mode, of a name on
  -- the allow list with arguments within the bounds, none with `..`, and no word with a sign of
  -- the shell; in a container mode that is a container of the configured image.
  pub execute-IsConfined :
      (text : Str) (s : Shell W) → IsConfined s → IsConfined (execute h c text s).1
  execute-IsConfined text s k = execute-Among IsPermitted (λ e p. p) text s k
