-- ===== src/Tools/Sandbox/Inner.antt =====
-- tools/builtin/sandbox.go and tools/builtin/execute.go: the backend in the sandbox, and the sandbox
-- that the `execute` tool uses.
use deepagent.Base.{Option, none, some}
use deepagent.Tools.Files.{Backend}
use deepagent.Tools.Sandbox.{ExecuteConfig}

pub record SandboxBackend (W : Type 0) : Type 0 where
  pub inner : Backend W
  pub config : ExecuteConfig

-- A backend, which may be a sandbox.
pub data AnyBackend (W : Type 0) : Type 0 where
  plain : Backend W → AnyBackend W
  sandboxed : SandboxBackend W → AnyBackend W

abbrev pub inner_or : {W : Type 0} → Backend W → Option (Backend W) → Backend W
inner_or in_memory none = in_memory
inner_or in_memory (some b) = b

-- `NewSandboxBackendWithConfig`, and `NewSandboxBackend` with the default configuration; a nil
-- backend is a new one in memory
unfoldable pub new_sandbox_backend_with_config :
    {W : Type 0} → Backend W → Option (Backend W) → ExecuteConfig → SandboxBackend W
new_sandbox_backend_with_config in_memory inner config = record {
  inner = inner_or in_memory inner;
  config = config;
}

-- `List`, `Read`, `Write` and `Edit`
unfoldable pub as_backend : {W : Type 0} → SandboxBackend W → Backend W
as_backend s = record {
  list = λ path w. s.inner.list path w;
  read = λ path w. s.inner.read path w;
  write = λ path content w. s.inner.write path content w;
  edit = λ path instructions w. s.inner.edit path instructions w;
}

-- The sandbox of `NewExecuteToolWithConfig`, with the default configuration.
unfoldable pub sandbox_for :
    {W : Type 0}
    → Backend W
    → ExecuteConfig
    → AnyBackend W
    → Option ExecuteConfig
    → SandboxBackend W
unfolding new_sandbox_backend_with_config
sandbox_for in_memory standard (sandboxed s) none = s
sandbox_for in_memory standard (sandboxed s) (some config) = record s { config = config }
sandbox_for in_memory standard (plain b) none =
    new_sandbox_backend_with_config in_memory (some b) standard
sandbox_for in_memory standard (plain b) (some config) =
    new_sandbox_backend_with_config in_memory (some b) config
