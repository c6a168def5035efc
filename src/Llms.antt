-- ===== src/Llms.antt =====
-- llms/: what the agent says to a model.
pub mod GoType
pub mod Schema
pub mod Anthropic
pub mod OpenAi
