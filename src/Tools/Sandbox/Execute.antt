-- ===== src/Tools/Sandbox/Execute.antt =====
-- tools/builtin/sandbox.go: `SandboxBackend.Execute`.
use deepagent.Base.{
  ℕ, Bool, false, not, ◌&&◌, ◌||◌, Option, none, some, List, [], ◌∷◌, ◌++◌, ltb, length, take,
  if◌then◌else◌,
}
use deepagent.Base.Text.{
  Str, lit, len, is_empty, str_eq, contains, contains_any, trim_space, fields, to_lower,
}
use deepagent.Agent.Types.{Result, ok, err}
use deepagent.Tools.Sandbox.{ExecuteConfig, Command, Host, Shell, start}
use deepagent.Tools.Sandbox.Build.{path_env, trimmed_or, setting_args, build_command_for_mode}

-- The output, as bytes, and the error; or the panic of `parts[0]` when there are no parts.
pub data Executed : Type 0 where
  returned : List ℕ → Option Str → Executed
  panicked : Executed

-- `|&;><` and the back quote, `$`, the backslash and the line ends
abbrev pub unsafe_syntax : Str
unsafe_syntax = lit "|&;><`$\\\n\r"

-- `AllowedCommands[name]`
unfoldable pub allowed : List (Str × Bool) → Str → Bool
allowed [] name = false
allowed ((key, value) ∷ rest) name = if str_eq key name then value else allowed rest name

module _ {W : Type 0} (h : Host W) (c : ExecuteConfig) where
  unfoldable pub check_args : List Str → Option Str
  check_args [] = none
  check_args (arg ∷ args) =
      let rest = check_args args in
      if ltb 0 c.max_arg_length && ltb c.max_arg_length (len arg)
      then some (lit "argument too long: " ++ h.quote arg)
      else if contains arg (lit "..")
      then some (lit "unsafe argument detected: " ++ h.quote arg)
      else rest

  -- the allow list and the bounds
  unfoldable pub check_parts : Str → List Str → Option Str
  unfolding check_args allowed
  check_parts name args =
      if not (allowed c.allowed_commands name)
      then some (lit "command not allowed in sandbox: " ++ name)
      else if ltb 0 c.max_args && ltb c.max_args (length args)
      then some (lit "too many arguments: max " ++ h.itoa c.max_args)
      else check_args args

  abbrev pub mode_of : Str
  mode_of =
      let mode = to_lower h.lower (trim_space c.isolation_mode) in
      if is_empty mode then lit "process" else mode

  -- the time limit of the call
  abbrev pub call_deadlines : List ℕ
  call_deadlines = if ltb 0 c.timeout then c.timeout ∷ [] else []

  abbrev pub is_container : Str → Bool
  is_container mode = str_eq mode (lit "docker") || str_eq mode (lit "gvisor")

  abbrev pub rootless_probe : Command
  rootless_probe = record {
    name = trimmed_or c.container_binary (lit "docker");
    args = lit "info" ∷ lit "--format" ∷ lit "{{json .SecurityOptions}}" ∷ [];
    dir = [];
    env = path_env;
    deadlines = 5 ∷ call_deadlines;
  }

  abbrev pub probed : (List ℕ × Option Str) × Shell W → Option Str × Shell W
  probed ((out, some e), s) = (
    some (
        lit "failed to inspect docker rootless mode: "
        ++ e
        ++ lit " ("
        ++ trim_space (h.decode out)
        ++ lit ")"),
    s,
  )
  probed ((out, none), s) = (
    if contains (to_lower h.lower (h.decode out)) (lit "rootless")
        then none
        else some (lit "rootless docker is required but not detected"),
    s,
  )

  -- `isRootlessDocker`, as `validateContainerPolicy` uses it
  unfoldable pub require_rootless : Shell W → Option Str × Shell W
  unfolding start
  require_rootless s =
      let bin = trimmed_or c.container_binary (lit "docker") in
      let probe = probed (start h rootless_probe s) in
      if h.look_path bin s.world
      then probe
      else (some (lit "container runtime binary not found: " ++ bin), s)

  unfoldable pub validate_container_policy : Shell W → Option Str × Shell W
  unfolding require_rootless
  validate_container_policy s =
      if c.require_seccomp && is_empty (trim_space c.seccomp_profile)
      then (some (lit "seccomp profile is required but not configured"), s)
      else if c.require_rootless
      then require_rootless s
      else (none, s)

  abbrev pub signature_check : Command
  signature_check = record {
    name = trimmed_or c.cosign_binary (lit "cosign");
    args =
        (lit "verify" ∷ setting_args (lit "--key") c.cosign_key_ref)
        ++ trim_space c.container_image ∷ [];
    dir = [];
    env = path_env;
    deadlines =
        (if ltb 0 c.signature_verify_timeout then c.signature_verify_timeout ∷ [] else [])
        ++ call_deadlines;
  }

  abbrev pub verified : (List ℕ × Option Str) × Shell W → Option Str × Shell W
  verified ((out, some e), s) = (
    some (
        lit "image signature verification failed: "
        ++ e
        ++ lit " ("
        ++ trim_space (h.decode out)
        ++ lit ")"),
    s,
  )
  verified ((out, none), s) = (none, s)

  unfoldable pub verify_image_signature : Shell W → Option Str × Shell W
  unfolding start
  verify_image_signature s =
      let bin = trimmed_or c.cosign_binary (lit "cosign") in
      if not c.require_signed_images
      then (none, s)
      else if h.look_path bin s.world
      then verified (start h signature_check s)
      else (some (lit "cosign not found: " ++ bin), s)

  -- the policy of a container, then the signature of its image
  abbrev pub then_signature : Option Str × Shell W → Option Str × Shell W
  then_signature (some e, s) = (some e, s)
  then_signature (none, s) = verify_image_signature s

  unfoldable pub prepare : Str → Shell W → Option Str × Shell W
  unfolding validate_container_policy verify_image_signature
  prepare mode s =
      if is_container mode then then_signature (validate_container_policy s) else (none, s)

  unfoldable pub truncate : List ℕ → List ℕ
  truncate out =
      if ltb 0 c.max_output_size && ltb c.max_output_size (length out)
      then take c.max_output_size out ++ lit "\n...output truncated...\n"
      else out

  unfoldable pub report : (List ℕ × Option Str) × Shell W → Executed × Shell W
  unfolding truncate
  report ((out, e), s) = (returned (truncate out) e, s)

  -- runs the command that was built
  unfoldable pub run_built : Result Command → Shell W → Executed × Shell W
  unfolding start report
  run_built (err e) s = (returned [] (some e), s)
  run_built (ok command) s = report (start h (record command { deadlines = call_deadlines }) s)

  unfoldable pub run_prepared : Str → List Str → Option Str × Shell W → Executed × Shell W
  unfolding run_built build_command_for_mode
  run_prepared name args (some e, s) = (returned [] (some e), s)
  run_prepared name args (none, s) =
      run_built (build_command_for_mode h c mode_of name args s.world) s

  unfoldable pub run_checked : Option Str → Str → List Str → Shell W → Executed × Shell W
  unfolding run_prepared prepare
  run_checked (some e) name args s = (returned [] (some e), s)
  run_checked none name args s = run_prepared name args (prepare mode_of s)

  unfoldable pub run_parts : List Str → Shell W → Executed × Shell W
  unfolding run_checked check_parts
  run_parts [] s = (panicked, s)
  run_parts (name ∷ args) s = run_checked (check_parts name args) name args s

  unfoldable pub execute : Str → Shell W → Executed × Shell W
  unfolding run_parts
  execute text s =
      let command = trim_space text in
      if is_empty command
      then (returned [] (some (lit "empty command")), s)
      else if contains_any command unsafe_syntax
      then (returned [] (some (lit "unsafe command syntax detected")), s)
      else run_parts (fields command) s
