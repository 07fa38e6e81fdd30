-- ===== src/Stf.antt =====
-- crates/blockchain/state_transition/src: the state transition function.
pub mod JustifiedSlots
pub mod Justifiable
pub mod Error
pub mod Attestations
pub mod Invariant
pub mod Blocks
pub mod Genesis
pub mod Tests
