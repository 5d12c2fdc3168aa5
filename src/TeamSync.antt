-- ===== src/TeamSync.antt =====
-- The synchronisation of teams between nodes (internal/aip2p/team_sync.go, with the messages of
-- internal/aip2p/team/sync.go).
pub mod Message
pub mod State
pub mod Compact
pub mod Merge
pub mod Queue
pub mod Acks
pub mod Conflicts
pub mod Receive
pub mod Detect
pub mod Scan
mod Tests
