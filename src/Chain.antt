-- ===== src/Chain.antt =====
-- crates/blockchain/src/store.rs: validation of votes, targets, and the updates of head and safe
-- target. Logging and metrics are left out.
pub mod Error
pub mod Validation
pub mod Verify
pub mod Target
pub mod Head
pub mod Aggregation
pub mod Gossip
pub mod Import
pub mod Frame
pub mod Committee
pub mod Tick
pub mod Build
pub mod Produce
mod Tests
