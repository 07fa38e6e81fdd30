-- ===== src/Storage.antt =====
-- crates/storage/src: the fork choice store and its buffers.
pub mod Payloads
pub mod Store
pub mod Blocks
pub mod Prune
pub mod RoundTrip
pub mod Retention
pub mod Latest
pub mod Init
pub mod Tests
