-- ===== src/CheckpointSync.antt =====
-- bin/ethlambda/src/checkpoint_sync.rs: the checks on a downloaded state. The download and the
-- decoding are left out, and with them their two errors.
pub mod Trusted
mod Tests
use ethlambda.Base.{
  ℕ, ◌+◌, Bool, true, false, not, ◌&&◌, List, [], ◌∷◌, length, leb, ◌==◌, nat_eq, Outcome, ok, err,
  ensure, ◌>>=◌, ◌>>◌,
}
use ethlambda.Ssz.{Ssz}
use ethlambda.Types.{H256, Validator, State, Roots}

pub data CheckpointSyncError : Type 0 where
  slot_is_zero : CheckpointSyncError
  no_validators : CheckpointSyncError
  genesis_time_mismatch : (expected got : ℕ) → CheckpointSyncError
  validator_count_mismatch : (expected got : ℕ) → CheckpointSyncError
  non_sequential_validator_index : (position expected got : ℕ) → CheckpointSyncError
  validator_pubkey_mismatch : (index : ℕ) → CheckpointSyncError
  finalized_exceeds_state_slot : CheckpointSyncError
  justified_precedes_finalized : CheckpointSyncError
  justified_finalized_root_mismatch : CheckpointSyncError
  block_header_slot_exceeds_state : CheckpointSyncError
  block_header_finalized_root_mismatch : CheckpointSyncError
  block_header_justified_root_mismatch : CheckpointSyncError

abbrev pub Checked : Type 0
Checked = Outcome CheckpointSyncError (Unit {0})

abbrev pub bytes_beq : List ℕ → List ℕ → Bool
bytes_beq [] [] = true
bytes_beq [] (y ∷ ys) = false
bytes_beq (x ∷ xs) [] = false
bytes_beq (x ∷ xs) (y ∷ ys) = x == y && bytes_beq xs ys

-- from `position` on
unfoldable pub check_indices : ℕ → List Validator → Checked
check_indices position [] = ok tt
check_indices position (v ∷ validators) =
    ensure (v.index == position) (non_sequential_validator_index position position v.index)
    >> check_indices (position + 1) validators

unfoldable pub check_pubkeys : ℕ → List Validator → List Validator → Checked
check_pubkeys i (v ∷ validators) (e ∷ expected) =
    ensure (bytes_beq v.pubkey e.pubkey) (validator_pubkey_mismatch i)
    >> check_pubkeys (i + 1) validators expected
check_pubkeys i [] expected = ok tt
check_pubkeys i (v ∷ validators) [] = ok tt

module _ (S : Ssz) (R : Roots S) where
  unfoldable pub check_registry : State S → ℕ → List Validator → Checked
  unfolding check_indices check_pubkeys
  check_registry state expected_genesis_time expected_validators = do
    ensure (not (state.slot == 0)) slot_is_zero
    ensure (not (length state.validators == 0)) no_validators
    ensure (state.config.genesis_time == expected_genesis_time)
        (genesis_time_mismatch expected_genesis_time state.config.genesis_time)
    ensure (length state.validators == length expected_validators)
        (validator_count_mismatch (length expected_validators) (length state.validators))
    check_indices 0 state.validators
    check_pubkeys 0 state.validators expected_validators

  unfoldable pub check_checkpoints : State S → Checked
  check_checkpoints state = do
    let justified = state.latest_justified
    let finalized = state.latest_finalized
    let header = state.latest_block_header
    ensure (leb finalized.slot state.slot) finalized_exceeds_state_slot
    ensure (leb finalized.slot justified.slot) justified_precedes_finalized
    ensure (not (justified.slot == finalized.slot && not (justified.root == finalized.root)))
        justified_finalized_root_mismatch
    ensure (leb header.slot state.slot) block_header_slot_exceeds_state
    let block_root = R.header_hash header
    ensure (not (header.slot == finalized.slot && not (block_root == finalized.root)))
        block_header_finalized_root_mismatch
    ensure (not (header.slot == justified.slot && not (block_root == justified.root)))
        block_header_justified_root_mismatch

  unfoldable pub verify_checkpoint_state : State S → ℕ → List Validator → Checked
  unfolding check_registry check_checkpoints
  verify_checkpoint_state state expected_genesis_time expected_validators = do
    check_registry state expected_genesis_time expected_validators
    check_checkpoints state
