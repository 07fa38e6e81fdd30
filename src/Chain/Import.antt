-- ===== src/Chain/Import.antt =====
-- `on_block_core` of crates/blockchain/src/store.rs and its callers: the import of a block is a test
-- against the store and its parent's state, then the updates of the store. The fuel is that of the
-- fork choice; a panic also stands for its end.
pub mod Frame
pub mod Result
pub mod Accepted
pub mod Tests
use ethlambda.Base.{
  ℕ, Bool, true, false, ◌||◌, Option, none, some, List, [], ◌∷◌, ◌++◌, ltb, if◌then◌else◌, Outcome,
  ok, err, panic, ok_or, ◌>>=◌, ◌>>◌,
}
use ethlambda.Ssz.{Ssz}
use ethlambda.Types.{
  H256, AttestationData, AggregatedAttestation, AggregatedSignatureProof,
  SignedBlockWithAttestation, validator_indices, State, Roots,
}
use ethlambda.Xmss.{Xmss}
use ethlambda.Stf.Blocks.{state_transition}
use ethlambda.Storage.Payloads.{SignatureKey}
use ethlambda.Storage.Store.{
  Store, StoredAggregatedPayload, has_state, get_state, insert_state,
  insert_attestation_data_by_root_batch, insert_known_aggregated_payloads_batch,
  insert_new_aggregated_payload, insert_gossip_signature,
}
use ethlambda.Storage.Prune.{update_checkpoints}
use ethlambda.Storage.Blocks.{insert_signed_block}
use ethlambda.Storage.Init.{with_state_root}
use ethlambda.Chain.Error.{
  StoreError, map_err, missing_parent_state, state_transition_failed, signature_decoding_failed,
}
use ethlambda.Chain.Verify.{verify_signatures}
use ethlambda.Chain.Head.{update_head}
use ethlambda.Chain.Aggregation.{aggregation_bits_from_validator_indices}
use ethlambda.Chain.Gossip.{in_our_subnet, payload_entries}

-- `test.then_some(a)`
abbrev pub then_some {ℓ} : {A : Type ℓ} → Bool → A → Option A
then_some true a = some a
then_some false a = none

module _ (S : Ssz) (R : Roots S) (X : Xmss) where
  open R use {block_hash, attestation_data_hash}

  -- The state after the block, with its state root cached; `none` for a block that is known.
  unfoldable pub check_block :
      Store S → SignedBlockWithAttestation S → Bool → Outcome StoreError (Option (State S))
  check_block store signed_block verify =
      let block = signed_block.message.block in
      if has_state S store (block_hash block) then ok none else (do
        parent_state ←
            ok_or (get_state S store block.parent_root)
              (missing_parent_state block.parent_root block.slot)
        (if verify then verify_signatures S R X parent_state signed_block else ok tt)
        post_state ← map_err state_transition_failed (state_transition S R parent_state block)
        ok (some (with_state_root S R post_state block.state_root)))

  unfoldable pub advance_checkpoints : Store S → State S → Store S
  advance_checkpoints store post_state =
      let newer_justified =
        ltb store.metadata.latest_justified.slot post_state.latest_justified.slot in
      let newer_finalized =
        ltb store.metadata.latest_finalized.slot post_state.latest_finalized.slot in
      if newer_justified || newer_finalized
      then update_checkpoints S store (record {
        head = store.metadata.head;
        justified = then_some newer_justified post_state.latest_justified;
        finalized = then_some newer_finalized post_state.latest_finalized;
      })
      else store

  -- the votes of the body that have a proof, by root
  unfoldable pub body_data :
      List (AggregatedAttestation S)
      → List (AggregatedSignatureProof S)
      → List (H256 × AttestationData)
  body_data (att ∷ attestations) (proof ∷ proofs) =
      (attestation_data_hash att.attestation_data, att.attestation_data)
      ∷ body_data attestations proofs
  body_data [] proofs = []
  body_data (att ∷ attestations) [] = []

  unfoldable pub body_payloads :
      List (AggregatedAttestation S)
      → List (AggregatedSignatureProof S)
      → List (SignatureKey × StoredAggregatedPayload S)
  body_payloads (att ∷ attestations) (proof ∷ proofs) =
      payload_entries S R X att.attestation_data proof (validator_indices S att.aggregation_bits)
      ++ body_payloads attestations proofs
  body_payloads [] proofs = []
  body_payloads (att ∷ attestations) [] = []

  -- The store with the block, its state and its votes, before the head is updated.
  unfoldable pub record_block : Store S → SignedBlockWithAttestation S → State S → Store S
  unfolding advance_checkpoints body_data body_payloads
  record_block store signed_block post_state =
      let block = signed_block.message.block in
      let block_root = block_hash block in
      let attestations = block.body.attestations in
      let proofs = signed_block.signature.attestation_signatures in
      let d = signed_block.message.proposer_attestation.attestation_data in
      let advanced = advance_checkpoints store post_state in
      let stored = insert_signed_block S R advanced block_root signed_block in
      let with_state = insert_state S stored block_root post_state in
      let with_data =
        insert_attestation_data_by_root_batch S with_state
          (body_data attestations proofs ++ ((attestation_data_hash d, d) ∷ [])) in
      insert_known_aggregated_payloads_batch S with_data (body_payloads attestations proofs)

  -- The proposer's vote is pending: as a signature, or with an empty proof where none are checked.
  unfoldable pub keep_proposer_vote :
      Store S
      → SignedBlockWithAttestation S
      → Bool
      → List ℕ
      → Store S × Outcome StoreError (Unit {0})
  keep_proposer_vote store signed_block true local_validator_ids =
      let attestation = signed_block.message.proposer_attestation in
      let d = attestation.attestation_data in
      if in_our_subnet local_validator_ids attestation.validator_id
      then elim (X.signature_from_bytes signed_block.signature.proposer_signature) [
        | none ↦ (store, err signature_decoding_failed)
        | some signature ↦ (
          insert_gossip_signature S store (attestation_data_hash d) d.slot attestation.validator_id
              (X.signature_to_bytes signature),
          ok tt,
        )
      ]
      else (store, ok tt)
  keep_proposer_vote store signed_block false local_validator_ids =
      let attestation = signed_block.message.proposer_attestation in
      let d = attestation.attestation_data in
      elim (aggregation_bits_from_validator_indices S {E = StoreError}
        (attestation.validator_id ∷ [])) [
          | ok participants ↦ (
            insert_new_aggregated_payload S store
                (attestation.validator_id, attestation_data_hash d)
                (record {
                  slot = d.slot;
                  proof = record { participants = participants; proof_data = [] };
                }),
            ok tt,
          )
          | err e ↦ (store, err e)
          | panic ↦ (store, panic)
        ]

  unfoldable pub import_block :
      ℕ
      → Store S
      → SignedBlockWithAttestation S
      → Bool
      → List ℕ
      → State S
      → Store S × Outcome StoreError (Unit {0})
  unfolding record_block keep_proposer_vote
  import_block fuel store signed_block verify local_validator_ids post_state =
      let recorded = record_block store signed_block post_state in
      elim (update_head S fuel recorded) [
        | none ↦ (recorded, panic)
        | some updated ↦ keep_proposer_vote updated signed_block verify local_validator_ids
      ]

  unfoldable pub on_block_core :
      ℕ
      → Store S
      → SignedBlockWithAttestation S
      → Bool
      → List ℕ
      → Store S × Outcome StoreError (Unit {0})
  unfolding check_block import_block
  on_block_core fuel store signed_block verify local_validator_ids =
      elim (check_block store signed_block verify) [
        | ok none ↦ (store, ok tt)
        | ok (some post_state) ↦
            import_block fuel store signed_block verify local_validator_ids post_state
        | err e ↦ (store, err e)
        | panic ↦ (store, panic)
      ]

  unfoldable pub on_block :
      ℕ → Store S → SignedBlockWithAttestation S → List ℕ → Store S × Outcome StoreError (Unit {0})
  unfolding on_block_core
  on_block fuel store signed_block local_validator_ids =
      on_block_core fuel store signed_block true local_validator_ids

  unfoldable pub on_block_without_verification :
      ℕ → Store S → SignedBlockWithAttestation S → Store S × Outcome StoreError (Unit {0})
  unfolding on_block_core
  on_block_without_verification fuel store signed_block =
      on_block_core fuel store signed_block false []
