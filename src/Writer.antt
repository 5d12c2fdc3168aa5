-- ===== src/Writer.antt =====
-- The writer policy of internal/plugins/aip2p: who may write, under whose delegation, and over
-- which relays.
pub mod Modes
pub mod Lists
pub mod Maps
pub mod Delegation
pub mod Policy
pub mod Decision
pub mod Hex
pub mod Registry
pub mod Filter
mod Tests
