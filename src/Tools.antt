-- ===== src/Tools.antt =====
-- tools/: tool values, their validation, and the built-in tools.
pub mod Value
pub mod Sandbox
pub mod Validation
pub mod Files
pub mod Builtin
pub mod Wrapping
pub mod Toolbox
