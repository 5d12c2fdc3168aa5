-- ===== src/Feed.antt =====
-- What a node shows of its index by its subscription rules (internal/plugins/aip2p/subscriptions.go).
pub mod Rules
pub mod Limits
pub mod Selection
mod Tests
