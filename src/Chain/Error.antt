-- ===== src/Chain/Error.antt =====
-- The `StoreError` of crates/blockchain/src/store.rs. What a library's error says is left out.
use ethlambda.Base.{ℕ, Outcome, ok, err, panic}
use ethlambda.Types.{H256}
use ethlambda.Stf.Error
use ethlambda.Xmss.{VerificationError}

pub data StoreError : Type 0 where
  missing_parent_state : (parent_root : H256) (slot : ℕ) → StoreError
  invalid_validator_index : StoreError
  pubkey_decoding_failed : ℕ → StoreError
  signature_decoding_failed : StoreError
  signature_verification_failed : StoreError
  proposer_signature_decoding_failed : StoreError
  proposer_signature_verification_failed : StoreError
  state_transition_failed : Error.Error → StoreError
  unknown_source_block : H256 → StoreError
  unknown_target_block : H256 → StoreError
  unknown_head_block : H256 → StoreError
  source_exceeds_target : StoreError
  head_older_than_target : (head_slot target_slot : ℕ) → StoreError
  source_slot_mismatch : (checkpoint_slot block_slot : ℕ) → StoreError
  target_slot_mismatch : (checkpoint_slot block_slot : ℕ) → StoreError
  head_slot_mismatch : (checkpoint_slot block_slot : ℕ) → StoreError
  attestation_too_far_in_future : (attestation_slot current_slot : ℕ) → StoreError
  attestation_signature_mismatch : (signatures attestations : ℕ) → StoreError
  participants_mismatch : StoreError
  aggregate_verification_failed : VerificationError → StoreError
  missing_target_state : H256 → StoreError
  not_proposer : (validator_index slot : ℕ) → StoreError
  proposer_attestation_mismatch : (attestation_id proposer_index : ℕ) → StoreError

-- `.map_err(f)?`
abbrev pub map_err {ℓ κ μ} :
    {E : Type ℓ} {F : Type κ} {A : Type μ} → (E → F) → Outcome E A → Outcome F A
map_err f (ok a) = ok a
map_err f (err e) = err (f e)
map_err f panic = panic
