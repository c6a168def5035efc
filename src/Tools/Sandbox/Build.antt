-- ===== src/Tools/Sandbox/Build.antt =====
-- tools/builtin/sandbox.go: the command that a mode runs.
use deepagent.Base.{Bool, false, not, ◌&&◌, ◌||◌, List, [], ◌∷◌, ◌++◌, ltb, if◌then◌else◌}
use deepagent.Base.Text.{Str, lit, is_empty, str_eq, contains, contains_any, has_prefix, trim_space}
use deepagent.Agent.Types.{Result, ok, err}
use deepagent.Tools.Sandbox.{ExecuteConfig, Command, Host}
use deepagent.Tools.Sandbox.Images.{image_allowed}

-- `if err != nil { return err }`
module _ {A B : Type 0} where
  infixl 5 ◌▹◌
  abbrev pub ◌▹◌ : Result A → (A → Result B) → Result B
  err failure ▹ next = err failure
  ok found ▹ next = next found

abbrev pub path_env : List Str
path_env = lit "PATH=/usr/bin:/bin:/usr/sbin:/sbin" ∷ []

-- a setting without its spaces, or what stands for it when it is empty
abbrev pub trimmed_or : Str → Str → Str
trimmed_or setting default = if is_empty (trim_space setting) then default else trim_space setting

-- an option and its value, when the value is set
abbrev pub setting_args : Str → Str → List Str
setting_args flag setting =
    if is_empty (trim_space setting) then [] else flag ∷ trim_space setting ∷ []

module _ {W : Type 0} (h : Host W) (c : ExecuteConfig) where
  unfoldable pub filepath_is_safe : Str → W → Bool
  filepath_is_safe dir w =
      if is_empty dir
      then false
      else if contains dir (lit "..")
      then false
      else if contains_any dir (lit "\n\r")
      then false
      else if has_prefix dir (lit "~")
      then false
      else h.stat dir w

  unfoldable pub build_process_command : Str → List Str → W → Result Command
  unfolding filepath_is_safe
  build_process_command name args w =
      let command : Command = record {
        name = name;
        args = args;
        dir = c.working_dir;
        env = path_env;
        deadlines = [];
      } in
      if is_empty c.working_dir
      then ok command
      else if filepath_is_safe c.working_dir w
      then ok command
      else err (lit "unsafe working dir configured: " ++ c.working_dir)

  -- the network and the limits
  unfoldable pub limit_args : List Str
  limit_args =
      (lit "run" ∷ lit "--rm" ∷ lit "--network" ∷ trimmed_or c.container_network (lit "none") ∷ [])
      ++ (if ltb 0 c.container_pids_limit
          then lit "--pids-limit" ∷ h.itoa c.container_pids_limit ∷ []
          else [])
      ++ setting_args (lit "--cpus") c.container_cpus
      ++ setting_args (lit "--memory") c.container_memory

  unfoldable pub root_fs_args : List Str
  root_fs_args =
      if c.read_only_root_fs
      then lit "--read-only" ∷ lit "--tmpfs" ∷ lit "/tmp:rw,noexec,nosuid,size=64m" ∷ []
      else []

  -- the options up to `no-new-privileges`
  unfoldable pub isolation_args : List Str
  unfolding limit_args root_fs_args
  isolation_args =
      limit_args
      ++ root_fs_args
      ++ (lit "--cap-drop" ∷ lit "ALL" ∷ lit "--security-opt" ∷ lit "no-new-privileges" ∷ [])

  unfoldable pub user_args : Result (List Str)
  user_args =
      if c.enforce_non_root_user
      then (if is_empty (trim_space c.container_user)
          then err (lit "container user is required when EnforceNonRootUser=true")
          else ok (lit "--user" ∷ trim_space c.container_user ∷ []))
      else ok []

  unfoldable pub seccomp_args : W → Result (List Str)
  unfolding filepath_is_safe
  seccomp_args w =
      let profile = trim_space c.seccomp_profile in
      if is_empty profile
      then ok []
      else if filepath_is_safe profile w
      then (h.abs profile w ▹ λ path. ok (lit "--security-opt" ∷ (lit "seccomp=" ++ path) ∷ []))
      else err (lit "unsafe seccomp profile path: " ++ profile)

  unfoldable pub runtime_args : Str → List Str
  runtime_args mode =
      if str_eq mode (lit "gvisor")
      then lit "--runtime" ∷ trimmed_or c.container_runtime (lit "runsc") ∷ []
      else []

  unfoldable pub workdir_args : W → Result (List Str)
  unfolding filepath_is_safe
  workdir_args w =
      if is_empty c.working_dir
      then ok []
      else if filepath_is_safe c.working_dir w
      then (h.abs c.working_dir w ▹ λ path.
          ok (lit "-v" ∷ (path ++ lit ":/workspace:ro") ∷ lit "-w" ∷ lit "/workspace" ∷ []))
      else err (lit "unsafe working dir configured: " ++ c.working_dir)

  -- the options in front of the image
  unfoldable pub container_options : Str → W → Result (List Str)
  unfolding isolation_args user_args seccomp_args runtime_args workdir_args
  container_options mode w = user_args ▹ λ user. seccomp_args w ▹ λ seccomp.
      workdir_args w ▹ λ workdir.
      ok (isolation_args ++ user ++ (seccomp ++ runtime_args mode ++ workdir))

  -- the binary and the image are looked at first
  unfoldable pub check_image : Str → W → Result Str
  unfolding image_allowed
  check_image mode w =
      let bin = trimmed_or c.container_binary (lit "docker") in
      let image = trim_space c.container_image in
      if not (h.look_path bin w)
      then err (lit "container runtime binary not found: " ++ bin)
      else if is_empty image
      then err (lit "container image is required for " ++ mode ++ lit " mode")
      else if c.require_image_allowlist && not (image_allowed image c.allowed_images)
      then err (lit "container image is not in allowlist: " ++ image)
      else ok image

  unfoldable pub build_container_command : Str → List Str → W → Result Command
  unfolding check_image container_options
  build_container_command mode parts w = check_image mode w ▹ λ image.
      container_options mode w ▹ λ options. ok (record {
        name = trimmed_or c.container_binary (lit "docker");
        args = options ++ image ∷ parts;
        dir = [];
        env = path_env;
        deadlines = [];
      })

  unfoldable pub build_command_for_mode : Str → Str → List Str → W → Result Command
  unfolding build_process_command build_container_command
  build_command_for_mode mode name args w =
      if str_eq mode (lit "process")
      then build_process_command name args w
      else if str_eq mode (lit "docker") || str_eq mode (lit "gvisor")
      then build_container_command mode (name ∷ args) w
      else err (lit "unsupported sandbox isolation mode: " ++ mode)
