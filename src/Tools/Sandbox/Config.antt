-- ===== src/Tools/Sandbox/Config.antt =====
-- tools/builtin/sandbox.go: the configuration from the environment.
use deepagent.Base.{
  ℕ, ◌*◌, ◌≡◌, ◌≢◌, refl, inl, inr, Bool, true, false, Option, none, some, List, [], ◌∷◌, map, any,
  ◌==◌, if◌then◌else◌, Bool-cases,
}
use deepagent.Base.Text.{
  Str, lit, is_empty, str_eq, trim_space, trim, trim_left, trim_right, is_space, split_by,
  drop_empty, to_lower,
}
use deepagent.Tools.Sandbox.{ExecuteConfig}
use deepagent.Tools.Sandbox.Words.{trim_space-solid}
use deepagent.Tools.Sandbox.Images.{image_allowed, image_allowed_iff, image-Matches_itself}

-- `os.Getenv`, where an unset variable is empty; `strconv.Atoi` and `time.ParseDuration` in seconds;
-- and lower case beyond ASCII.
pub record Env : Type 0 where
  pub getenv : Str → Str
  pub atoi : Str → Option ℕ
  pub parse_duration : Str → Option ℕ
  pub lower : ℕ → ℕ

abbrev pub or_else {ℓ} : {A : Type ℓ} → Option A → A → A
or_else none fallback = fallback
or_else (some a) fallback = a

abbrev among : List Str → Str → Bool
among words v = any (λ w. str_eq v w) words

module _ (e : Env) where
  unfoldable pub getenv_or_default : Str → Str → Str
  getenv_or_default key fallback =
      let v = trim_space (e.getenv key) in if is_empty v then fallback else v

  unfoldable pub getenv_int_or_default : Str → ℕ → ℕ
  getenv_int_or_default key fallback =
      let v = trim_space (e.getenv key) in
      if is_empty v then fallback else or_else (e.atoi v) fallback

  unfoldable pub getenv_bool_or_default : Str → Bool → Bool
  getenv_bool_or_default key fallback =
      let v = trim_space (to_lower e.lower (e.getenv key)) in
      if is_empty v
      then fallback
      else if among (lit "1" ∷ lit "true" ∷ lit "yes" ∷ lit "y" ∷ lit "on" ∷ []) v
      then true
      else if among (lit "0" ∷ lit "false" ∷ lit "no" ∷ lit "n" ∷ lit "off" ∷ []) v
      then false
      else fallback

  unfoldable pub getenv_duration_or_default : Str → ℕ → ℕ
  getenv_duration_or_default key fallback =
      let v = trim_space (e.getenv key) in
      if is_empty v then fallback else or_else (e.parse_duration v) fallback

  unfoldable pub parse_csv_env : Str → List Str
  unfolding split_by
  parse_csv_env key =
      let raw = trim_space (e.getenv key) in
      if is_empty raw then [] else drop_empty (map trim_space (split_by (λ c. c == 44) raw))

  -- the commands that are allowed unless configured otherwise
  abbrev default_commands : List (Str × Bool)
  default_commands =
      map (λ name. (name, true))
        (lit "ls"
          ∷ lit "cat"
          ∷ lit "echo"
          ∷ lit "pwd"
          ∷ lit "whoami"
          ∷ lit "date"
          ∷ lit "grep"
          ∷ lit "head"
          ∷ lit "tail"
          ∷ lit "wc"
          ∷ lit "sort"
          ∷ lit "uniq"
          ∷ lit "cut"
          ∷ lit "tr"
          ∷ lit "sed"
          ∷ lit "awk"
          ∷ lit "find"
          ∷ lit "test"
          ∷ lit "stat"
          ∷ lit "file"
          ∷ lit "which"
          ∷ lit "dirname"
          ∷ lit "basename"
          ∷ [])

  abbrev pub default_image : Str
  default_image = getenv_or_default (lit "DEEPAGENT_SANDBOX_IMAGE") (lit "alpine:3.20")

  -- without a list, the image itself
  abbrev own_image : List Str → Str → List Str
  own_image [] image = image ∷ []
  own_image (x ∷ xs) image = x ∷ xs

  unfoldable pub default_execute_config : ExecuteConfig
  default_execute_config = record {
    allowed_commands = default_commands;
    timeout = 30;
    max_output_size = 1024 * 1024;
    working_dir = lit ".";
    max_args = 16;
    max_arg_length = 256;
    isolation_mode = getenv_or_default (lit "DEEPAGENT_SANDBOX_MODE") (lit "process");
    container_binary = getenv_or_default (lit "DEEPAGENT_SANDBOX_BIN") (lit "docker");
    container_image = default_image;
    container_runtime = getenv_or_default (lit "DEEPAGENT_SANDBOX_RUNTIME") (lit "runsc");
    container_network = getenv_or_default (lit "DEEPAGENT_SANDBOX_NETWORK") (lit "none");
    container_cpus = getenv_or_default (lit "DEEPAGENT_SANDBOX_CPUS") (lit "0.5");
    container_memory = getenv_or_default (lit "DEEPAGENT_SANDBOX_MEMORY") (lit "256m");
    container_pids_limit = getenv_int_or_default (lit "DEEPAGENT_SANDBOX_PIDS_LIMIT") 64;
    read_only_root_fs = true;
    container_user = getenv_or_default (lit "DEEPAGENT_SANDBOX_CONTAINER_USER") (lit "65532:65532");
    enforce_non_root_user = getenv_bool_or_default (lit "DEEPAGENT_SANDBOX_NONROOT") true;
    require_rootless = getenv_bool_or_default (lit "DEEPAGENT_SANDBOX_REQUIRE_ROOTLESS") true;
    seccomp_profile = trim_space (e.getenv (lit "DEEPAGENT_SANDBOX_SECCOMP_PROFILE"));
    require_seccomp = getenv_bool_or_default (lit "DEEPAGENT_SANDBOX_REQUIRE_SECCOMP") false;
    require_image_allowlist =
        getenv_bool_or_default (lit "DEEPAGENT_SANDBOX_REQUIRE_IMAGE_ALLOWLIST") true;
    allowed_images =
        own_image (parse_csv_env (lit "DEEPAGENT_SANDBOX_ALLOWED_IMAGES")) default_image;
    require_signed_images =
        getenv_bool_or_default (lit "DEEPAGENT_SANDBOX_REQUIRE_SIGNED_IMAGES") false;
    cosign_binary = getenv_or_default (lit "DEEPAGENT_SANDBOX_COSIGN_BIN") (lit "cosign");
    cosign_key_ref = trim_space (e.getenv (lit "DEEPAGENT_SANDBOX_COSIGN_KEY"));
    signature_verify_timeout =
        getenv_duration_or_default (lit "DEEPAGENT_SANDBOX_SIGNATURE_TIMEOUT") 20;
  }

  default_image-solid : trim_space default_image ≢ []
  unfolding getenv_or_default trim trim_left trim_right is_space
  default_image-solid =
      elim (Bool-cases (is_empty (trim_space (e.getenv (lit "DEEPAGENT_SANDBOX_IMAGE"))))) [
        | inl unset ↦ rw unset (λ p. cc)
        | inr set ↦ rw set (trim_space-solid (e.getenv (lit "DEEPAGENT_SANDBOX_IMAGE")) set)
      ]

  -- When no list of images is configured, the default configuration allows the image that it runs.
  pub default_image-IsListed :
      parse_csv_env (lit "DEEPAGENT_SANDBOX_ALLOWED_IMAGES") ≡ []
      → image_allowed (trim_space default_image) default_execute_config.allowed_images ≡ true
  unfolding default_execute_config
  default_image-IsListed no_list = rw no_list (
      (image_allowed_iff _ _).1
        ([], default_image, [], refl, image-Matches_itself _ default_image-solid))
