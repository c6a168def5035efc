-- ===== src/Tools/Sandbox/Tests.antt =====
-- A small host, and the theorems about the sandbox at it.
use deepagent.Base.{◌≡◌, ◌≢◌, ◌↔◌, refl, true, false, none, [], ◌∷◌}
use deepagent.Base.Text.{
  Str, lit, str_eq, len, fields, contains_any, contains, trim, trim_left, trim_right, trim_space,
  is_space,
}
use deepagent.Agent.Types.{ok}
use deepagent.Tools.Sandbox.{ExecuteConfig, Host, Shell}
use deepagent.Tools.Sandbox.Images.{image_allowed, IsListed, image_allowed_iff}
use deepagent.Tools.Sandbox.Execute.{returned, panicked, execute}
use deepagent.Tools.Sandbox.Words.{execute-Returns}
use deepagent.Tools.Sandbox.Config.{
  Env, parse_csv_env, default_image, default_execute_config, default_image-IsListed,
}
use deepagent.Tools.Sandbox.Confined.{IsConfined, execute-IsConfined}
use deepagent.Tools.Sandbox.Output.{IsBounded, execute-IsBounded}

-- Every command prints its name.
abbrev host : Host Unit
host = record {
  look_path = λ bin w. true;
  stat = λ path w. true;
  abs = λ path w. ok path;
  combined_output = λ cmd w. ((cmd.name, none), w);
  decode = λ out. out;
  itoa = λ n. n ∷ [];
  quote = λ text. text;
  lower = λ c. c;
}

abbrev in_mode : Str → ExecuteConfig
in_mode mode = record {
  allowed_commands = (lit "ls", true) ∷ [];
  timeout = 30;
  max_output_size = 1;
  working_dir = lit ".";
  max_args = 2;
  max_arg_length = 8;
  isolation_mode = mode;
  container_binary = [];
  container_image = lit "alpine:3.20";
  container_runtime = [];
  container_network = [];
  container_cpus = lit "0.5";
  container_memory = [];
  container_pids_limit = 64;
  read_only_root_fs = true;
  container_user = lit "65532";
  enforce_non_root_user = true;
  require_rootless = false;
  seccomp_profile = [];
  require_seccomp = false;
  require_image_allowlist = true;
  allowed_images = lit "alpine*" ∷ [];
  require_signed_images = true;
  cosign_binary = [];
  cosign_key_ref = [];
  signature_verify_timeout = 20;
}

abbrev shell : Shell Unit
shell = record { world = tt; ran = [] }

-- `ls -l` runs, and its output is cut after a byte
ls-runs :
    (execute host (in_mode []) (lit " ls  -l ") shell).0
    ≡ returned (lit "l\n...output truncated...\n") none
unfolding execute trim is_space contains_any fields str_eq len contains
ls-runs = refl

execute-Returns_example : (execute host (in_mode (lit "docker")) (lit " ls -l ") shell).0 ≢ panicked
execute-Returns_example = execute-Returns host (in_mode (lit "docker")) (lit " ls -l ") shell

execute-IsConfined_example :
    IsConfined host
      (in_mode (lit "docker"))
      (execute host (in_mode (lit "docker")) (lit " ls -l ") shell).1
execute-IsConfined_example =
    execute-IsConfined host (in_mode (lit "docker")) (lit " ls -l ") shell tt

execute-IsBounded_example :
    IsBounded host (in_mode []) (execute host (in_mode []) (lit " ls -l ") shell).0
execute-IsBounded_example = execute-IsBounded host (in_mode []) (lit " ls -l ") shell

image_allowed_iff_example :
    (image_allowed (lit "alpine:3.20") (lit " alpine* " ∷ []) ≡ true)
    ↔ IsListed (lit "alpine:3.20") (lit " alpine* " ∷ [])
image_allowed_iff_example = image_allowed_iff (lit "alpine:3.20") (lit " alpine* " ∷ [])

abbrev no_variables : Env
no_variables = record {
  getenv = λ key. [];
  atoi = λ text. none;
  parse_duration = λ text. none;
  lower = λ c. c;
}

no_list : parse_csv_env no_variables (lit "DEEPAGENT_SANDBOX_ALLOWED_IMAGES") ≡ []
unfolding parse_csv_env trim trim_left trim_right
no_list = refl

own_image_listed :
    image_allowed
      (trim_space (default_image no_variables))
      (default_execute_config no_variables).allowed_images
    ≡ true
own_image_listed = default_image-IsListed no_variables no_list
