-- ===== src/Tools/Sandbox/Contained.antt =====
-- tools/builtin/sandbox.go: the commands that the modes build.
use deepagent.Base.{
  ◌≡◌, ◌≢◌, ◌⊎◌, refl, sym, ap, ◌∙◌, subst, arith, true, List, [], ◌∷◌, ◌++◌, append_assoc,
  append-nil,
}
use deepagent.Base.Text.{Str, lit, trim_space}
use deepagent.Agent.Types.{Result, ok, err}
use deepagent.Tools.Sandbox.{ExecuteConfig, Command, Host}
use deepagent.Tools.Sandbox.Images.{image_allowed, IsListed, image_allowed_iff}
use deepagent.Tools.Sandbox.Build.{
  path_env, ◌▹◌, limit_args, root_fs_args, isolation_args, user_args, seccomp_args, runtime_args,
  workdir_args, container_options, check_image, build_process_command, build_container_command,
}
use deepagent.Tools.Sandbox.Execute.{mode_of, is_container}

-- The words stand together in the list.
abbrev pub Has : List Str → List Str → Type 0
Has words list = (before : List Str) × (after : List Str) × (list ≡ before ++ words ++ after)

Has-left : (words xs ys : List Str) → Has words xs → Has words (xs ++ ys)
Has-left words xs ys (before, after, e) =
    (before, after ++ ys, ap (λ l. l ++ ys) e ∙ append_assoc (before ++ words) after ys)

Has-right : (words xs ys : List Str) → Has words ys → Has words (xs ++ ys)
Has-right words xs ys (before, after, e) = (
  xs ++ before,
  after,
  ap (λ l. xs ++ l) e
      ∙ sym (append_assoc xs (before ++ words) after)
      ∙ ap (λ l. l ++ after) (sym (append_assoc xs before words)),
)

Has-self : (words : List Str) → Has words words
Has-self words = ([], [], sym (append-nil words))

ok-injective : {A : Type 0} {a b : A} → ok a ≡ ok b → a ≡ b
ok-injective e = cc

step-ok :
    {A B : Type 0} (first : Result A) (next : A → Result B) {last : B}
    → (first ▹ next) ≡ ok last
    → (found : A) × (first ≡ ok found) × (next found ≡ ok last)
step-ok (err failure) next h = cc
step-ok (ok found) next h = (found, refl, h)

abbrev no_capability : List Str
no_capability = lit "--cap-drop" ∷ lit "ALL" ∷ []

abbrev no_new_privileges : List Str
no_new_privileges = lit "--security-opt" ∷ lit "no-new-privileges" ∷ []

abbrev image_of : ExecuteConfig → Str
image_of c = trim_space c.container_image

abbrev user_of : ExecuteConfig → Str
user_of c = trim_space c.container_user

-- The command runs the words in a container of the image: without capabilities or new privileges,
-- on a read-only file system and as the user if the configuration asks for these, and on a listed
-- image if it asks for that.
pub record IsContained (c : ExecuteConfig) (name : Str) (args : List Str) (cmd : Command)
    : Type 0 where
  pub options : List Str
  pub words : cmd.args ≡ options ++ image_of c ∷ name ∷ args
  pub image : image_of c ≢ []
  pub listed : c.require_image_allowlist ≡ true → IsListed (image_of c) c.allowed_images
  pub capabilities : Has no_capability options
  pub privileges : Has no_new_privileges options
  pub read_only : c.read_only_root_fs ≡ true → Has (lit "--read-only" ∷ []) options
  pub user :
      c.enforce_non_root_user ≡ true
      → (user_of c ≢ []) × Has (lit "--user" ∷ user_of c ∷ []) options
  pub environment : cmd.env ≡ path_env

-- The command runs the words as they are, in the working directory.
pub record IsProcess (c : ExecuteConfig) (word : Str) (words : List Str) (cmd : Command)
    : Type 0 where
  pub name : cmd.name ≡ word
  pub args : cmd.args ≡ words
  pub directory : cmd.dir ≡ c.working_dir
  pub environment : cmd.env ≡ path_env

module _ {W : Type 0} (h : Host W) (c : ExecuteConfig) where
  isolation-caps :
      (words : List Str)
      → Has words (no_capability ++ no_new_privileges)
      → Has words (isolation_args h c)
  unfolding isolation_args
  isolation-caps words there = Has-right words (limit_args h c ++ root_fs_args h c) _ there

  root_fs-read_only : c.read_only_root_fs ≡ true → Has (lit "--read-only" ∷ []) (root_fs_args h c)
  unfolding root_fs_args
  root_fs-read_only e = rw e ([], lit "--tmpfs" ∷ lit "/tmp:rw,noexec,nosuid,size=64m" ∷ [], refl)

  isolation-read_only :
      c.read_only_root_fs ≡ true → Has (lit "--read-only" ∷ []) (isolation_args h c)
  unfolding isolation_args
  isolation-read_only e =
      Has-left _ (limit_args h c ++ root_fs_args h c) (no_capability ++ no_new_privileges)
        (Has-right _ (limit_args h c) (root_fs_args h c) (root_fs-read_only e))

  user_args-user :
      (user : List Str)
      → user_args h c ≡ ok user
      → c.enforce_non_root_user ≡ true
      → (user_of c ≢ []) × (user ≡ lit "--user" ∷ user_of c ∷ [])
  unfolding user_args
  user_args-user user e on = ((λ p. ground (arith)), ground (arith))

  check_image-image :
      (mode : Str) (w : W) (image : Str)
      → check_image h c mode w ≡ ok image
      → (image ≡ image_of c)
        × (image_of c ≢ [])
        × (c.require_image_allowlist ≡ true → image_allowed (image_of c) c.allowed_images ≡ true)
  unfolding check_image
  check_image-image mode w image e = (ground arith, (λ p. ground arith), λ p. ground arith)

  -- what the pieces of the options amount to
  container_options-pieces :
      (mode : Str) (w : W) (options : List Str)
      → container_options h c mode w ≡ ok options
      → (user : List Str) × (rest : List Str) × (user_args h c ≡ ok user)
        × (options ≡ isolation_args h c ++ user ++ rest)
  unfolding container_options
  container_options-pieces mode w options e =
      let (user, at_user, e1) = step-ok (user_args h c) _ e in
      let (seccomp, _, e2) = step-ok (seccomp_args h c w) _ e1 in
      let (workdir, _, e3) = step-ok (workdir_args h c w) _ e2 in
      (user, seccomp ++ runtime_args h c mode ++ workdir, at_user, sym (ok-injective e3))

  pub build_container_command-IsContained :
      (mode : Str) (name : Str) (args : List Str) (w : W) (cmd : Command)
      → build_container_command h c mode (name ∷ args) w ≡ ok cmd
      → IsContained c name args cmd
  unfolding build_container_command
  build_container_command-IsContained mode name args w cmd e =
      let (image, at_image, e1) = step-ok (check_image h c mode w) _ e in
      let (options, at_options, e2) = step-ok (container_options h c mode w) _ e1 in
      let (same, solid, listed) = check_image-image mode w image at_image in
      let (user, rest, at_user, pieces) = container_options-pieces mode w options at_options in
      let from_isolation : (words : List Str) → Has words (isolation_args h c) → Has words options =
        λ words there.
          subst (Has words) (sym pieces) (Has-left words _ rest (Has-left words _ user there)) in
      record {
        options = options;
        words =
            ap (λ (k : Command). k.args) (sym (ok-injective e2))
            ∙ ap (λ i. options ++ i ∷ name ∷ args) same;
        image = solid;
        listed = λ on. (image_allowed_iff _ _).0 (listed on);
        capabilities = from_isolation _ (isolation-caps _ ([], no_new_privileges, refl));
        privileges = from_isolation _ (isolation-caps _ (no_capability, [], refl));
        read_only = λ on. from_isolation _ (isolation-read_only on);
        user = λ on.
            let flag : List Str = lit "--user" ∷ user_of c ∷ [] in
            let (set, at) = user_args-user user at_user on in
            (
              set,
              subst (Has flag) (sym pieces) (
                  Has-left flag _ rest (
                    Has-right flag (isolation_args h c) user
                      (subst (Has flag) (sym at) (Has-self flag)))),
            );
        environment = ap (λ (k : Command). k.env) (sym (ok-injective e2));
      }

  -- A process of the words, in the mode for that, or a container of them.
  abbrev pub IsBuilt : Str → List Str → Command → Type 0
  IsBuilt name args cmd =
      ((mode_of h c ≡ lit "process") × IsProcess c name args cmd)
      ⊎ ((is_container h c (mode_of h c) ≡ true) × IsContained c name args cmd)

  pub build_process_command-IsProcess :
      (name : Str) (args : List Str) (w : W) (cmd : Command)
      → build_process_command h c name args w ≡ ok cmd
      → IsProcess c name args cmd
  unfolding build_process_command
  build_process_command-IsProcess name args w cmd e = record {
    name = ground arith;
    args = ground arith;
    directory = ground arith;
    environment = ground arith;
  }
