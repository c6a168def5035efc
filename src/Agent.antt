-- ===== src/Agent.antt =====
-- agent/: the agent's loop, its human in the loop, its audit log and its checkpoints.
pub mod Types
pub mod Graph
pub mod Audit
pub mod Checkpointer
pub mod Subagent
pub mod Stream
pub mod Approvers
pub mod Construction
pub mod Create
pub mod Logging
pub mod Metrics
