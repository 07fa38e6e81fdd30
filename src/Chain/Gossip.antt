-- ===== src/Chain/Gossip.antt =====
-- `on_gossip_attestation` and `on_gossip_aggregated_attestation` of crates/blockchain/src/store.rs.
-- Each is a test of the message against the store, and the update of the store when it passes.
pub mod Accepted
use ethlambda.Base.{
  ℕ, ◌%◌, Bool, true, false, not, Option, none, some, List, [], ◌∷◌, length, get_elem?, any, ltb,
  leb, ◌==◌, nat_eq, if◌then◌else◌, map, Outcome, ok, err, panic, ensure, ok_or, expect, ◌>>=◌,
  ◌>>◌,
}
use ethlambda.Ssz.{Ssz}
use ethlambda.Types.{
  H256, AttestationData, SignedAttestation, SignedAggregatedAttestation, AggregatedSignatureProof,
  validator_indices, State, Roots,
}
use ethlambda.Xmss.{Xmss, verify_aggregated_signature}
use ethlambda.Storage.Payloads.{SignatureKey}
use ethlambda.Storage.Store.{
  Store, StoredAggregatedPayload, get_state, insert_attestation_data_by_root,
  insert_gossip_signature, insert_new_aggregated_payloads_batch,
}
use ethlambda.Chain.Error.{
  StoreError, map_err, missing_target_state, invalid_validator_index, pubkey_decoding_failed,
  signature_decoding_failed, signature_verification_failed, aggregate_verification_failed,
}
use ethlambda.Chain.Validation.{validate_attestation_data}
use ethlambda.Chain.Verify.{slot_u32, public_keys_of}

abbrev pub attestation_committee_count : ℕ
attestation_committee_count = 1

unfoldable pub compute_subnet_id : ℕ → ℕ
compute_subnet_id validator_id = validator_id % attestation_committee_count

-- The validator is in the subnet of one of ours.
unfoldable pub in_our_subnet : List ℕ → ℕ → Bool
unfolding compute_subnet_id
in_our_subnet local_validator_ids validator_id =
    any (λ vid. compute_subnet_id vid == compute_subnet_id validator_id) local_validator_ids

module _ (S : Ssz) (R : Roots S) (X : Xmss) where
  open R use {attestation_data_hash}

  -- The signature of the vote, once it is accepted.
  unfoldable pub check_attestation : Store S → SignedAttestation → Outcome StoreError X.Signature
  check_attestation store a = do
    validate_attestation_data S store a.attestation_data
    let target_root = a.attestation_data.target.root
    target_state ← ok_or (get_state S store target_root) (missing_target_state target_root)
    ensure (ltb a.validator_id (length target_state.validators)) invalid_validator_index
    validator ← expect (get_elem? target_state.validators a.validator_id)
    key ← ok_or (X.public_key_from_bytes validator.pubkey) (pubkey_decoding_failed a.validator_id)
    slot ← expect (slot_u32 a.attestation_data.slot)
    signature ← ok_or (X.signature_from_bytes a.signature) signature_decoding_failed
    ensure (X.verify key slot (attestation_data_hash a.attestation_data) signature)
        signature_verification_failed
    ok signature

  unfoldable pub record_attestation : Store S → SignedAttestation → List ℕ → X.Signature → Store S
  unfolding in_our_subnet
  record_attestation store a local_validator_ids signature =
      let d = a.attestation_data in
      let data_root = attestation_data_hash d in
      let known = insert_attestation_data_by_root S store data_root d in
      if in_our_subnet local_validator_ids a.validator_id
      then insert_gossip_signature S known data_root d.slot a.validator_id
          (X.signature_to_bytes signature)
      else known

  -- The store after the call, and what it returns.
  unfoldable pub on_gossip_attestation :
      Store S → SignedAttestation → List ℕ → Store S × Outcome StoreError (Unit {0})
  unfolding check_attestation record_attestation
  on_gossip_attestation store a local_validator_ids = elim (check_attestation store a) [
    | ok signature ↦ (record_attestation store a local_validator_ids signature, ok tt)
    | err e ↦ (store, err e)
    | panic ↦ (store, panic)
  ]

  unfoldable pub check_aggregated :
      Store S → SignedAggregatedAttestation S → Outcome StoreError (Unit {0})
  check_aggregated store aggregated = do
    let d = aggregated.attestation_data
    validate_attestation_data S store d
    target_state ← ok_or (get_state S store d.target.root) (missing_target_state d.target.root)
    let participant_indices = validator_indices S aggregated.proof.participants
    ensure (not (any (λ vid. leb (length target_state.validators) vid) participant_indices))
        invalid_validator_index
    public_keys ← public_keys_of S R X target_state.validators participant_indices
    slot ← expect (slot_u32 d.slot)
    map_err aggregate_verification_failed (
        verify_aggregated_signature X aggregated.proof.proof_data public_keys
          (attestation_data_hash d) slot)

  -- one entry for each participant
  unfoldable pub payload_entries :
      AttestationData
      → AggregatedSignatureProof S
      → List ℕ
      → List (SignatureKey × StoredAggregatedPayload S)
  payload_entries d proof validator_ids =
      map
        (λ validator_id.
          ((validator_id, attestation_data_hash d), record { slot = d.slot; proof = proof }))
        validator_ids

  unfoldable pub record_aggregated : Store S → SignedAggregatedAttestation S → Store S
  unfolding payload_entries
  record_aggregated store aggregated =
      let d = aggregated.attestation_data in
      insert_new_aggregated_payloads_batch S
        (insert_attestation_data_by_root S store (attestation_data_hash d) d)
        (payload_entries d aggregated.proof (validator_indices S aggregated.proof.participants))

  unfoldable pub on_gossip_aggregated_attestation :
      Store S → SignedAggregatedAttestation S → Store S × Outcome StoreError (Unit {0})
  unfolding check_aggregated record_aggregated
  on_gossip_aggregated_attestation store aggregated = elim (check_aggregated store aggregated) [
    | ok t ↦ (record_aggregated store aggregated, ok tt)
    | err e ↦ (store, err e)
    | panic ↦ (store, panic)
  ]
