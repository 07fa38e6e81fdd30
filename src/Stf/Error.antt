-- ===== src/Stf/Error.antt =====
-- The `Error` of crates/blockchain/state_transition/src/lib.rs.
use ethlambda.Base.{ℕ}
use ethlambda.Types.{H256}

pub data Error : Type 0 where
  state_slot_is_newer : (target_slot current_slot : ℕ) → Error
  slot_mismatch : (state_slot block_slot : ℕ) → Error
  parent_slot_is_newer : (parent_slot block_slot : ℕ) → Error
  invalid_proposer : (expected found : ℕ) → Error
  invalid_parent : (expected found : H256) → Error
  no_validators : Error
  state_root_mismatch : (expected computed : H256) → Error
  slot_gap_too_large : (gap current max_ : ℕ) → Error
  zero_hash_in_justification_roots : Error
