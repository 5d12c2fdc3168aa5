-- ===== src/Team.antt =====
-- The team workspace (internal/aip2p/team).
pub mod TaskState
pub mod Id
pub mod Task
pub mod TaskStore
pub mod TaskApi
pub mod Member
pub mod Artifact
pub mod Policy
pub mod Channel
mod Tests
