-- ===== src/Tools/Sandbox.antt =====
-- tools/builtin/sandbox.go: the `execute` tool's sandbox. The operating system is a record of
-- functions of the world; deadlines are carried by the command.
pub mod Config
pub mod Images
pub mod Build
pub mod Execute
pub mod Words
pub mod Contained
pub mod Confined
pub mod Output
pub mod Inner
mod Tests
use deepagent.Base.{ℕ, Bool, Option, List, ◌∷◌}
use deepagent.Base.Text.{Str}
use deepagent.Agent.Types.{Result}

-- A duration is a number of seconds; a negative number is 0, which the code does not tell apart.
pub record ExecuteConfig : Type 0 where
  pub allowed_commands : List (Str × Bool)
  pub timeout : ℕ
  pub max_output_size : ℕ
  pub working_dir : Str
  pub max_args : ℕ
  pub max_arg_length : ℕ
  pub isolation_mode : Str
  pub container_binary : Str
  pub container_image : Str
  pub container_runtime : Str
  pub container_network : Str
  pub container_cpus : Str
  pub container_memory : Str
  pub container_pids_limit : ℕ
  pub read_only_root_fs : Bool
  pub container_user : Str
  pub enforce_non_root_user : Bool
  pub require_rootless : Bool
  pub seccomp_profile : Str
  pub require_seccomp : Bool
  pub require_image_allowlist : Bool
  pub allowed_images : List Str
  pub require_signed_images : Bool
  pub cosign_binary : Str
  pub cosign_key_ref : Str
  pub signature_verify_timeout : ℕ

-- `exec.Cmd`. An empty `dir` or `env` is that of the program; `deadlines` are the time limits of
-- the context.
pub record Command : Type 0 where
  pub name : Str
  pub args : List Str
  pub dir : Str
  pub env : List Str
  pub deadlines : List ℕ

-- What the code calls: `exec.LookPath`, `os.Stat`, `filepath.Abs`, `CombinedOutput` (bytes, and the
-- error), the text of bytes, and the formatting of a number, of a quoted text and of lower case beyond ASCII.
pub record Host (W : Type 0) : Type 0 where
  pub look_path : Str → W → Bool
  pub stat : Str → W → Bool
  pub abs : Str → W → Result Str
  pub combined_output : Command → W → (List ℕ × Option Str) × W
  pub decode : List ℕ → Str
  pub itoa : ℕ → Str
  pub quote : Str → Str
  pub lower : ℕ → ℕ

-- A command that ran, and its error.
pub record Exec : Type 0 where
  pub command : Command
  pub error : Option Str

-- The world, and what has run, the last first.
pub record Shell (W : Type 0) : Type 0 where
  pub world : W
  pub ran : List Exec

unfoldable pub start : {W : Type 0} → Host W → Command → Shell W → (List ℕ × Option Str) × Shell W
start h cmd s =
    let (result, w) = h.combined_output cmd s.world in
    (result, record { world = w; ran = record { command = cmd; error = result.1 } ∷ s.ran })
