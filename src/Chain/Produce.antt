-- ===== src/Chain/Produce.antt =====
-- `produce_block_with_signatures` of crates/blockchain/src/store.rs. The outer panic also stands for
-- the end of a loop's fuel; the store is the one the error or the block is returned with.
pub mod Accepted
mod Tests
use ethlambda.Base.{
  ℕ, Bool, Option, none, some, List, length, map, Map, if◌then◌else◌, Outcome, ok, err, panic,
  ◌>>=◌, expect,
}
use ethlambda.Ssz.{Ssz}
use ethlambda.Types.{
  H256, AttestationData, Attestation, AggregatedSignatureProof, Block, State, Roots,
}
use ethlambda.Xmss.{Xmss}
use ethlambda.Stf.Blocks.{is_proposer}
use ethlambda.Storage.Payloads.{SignatureKey}
use ethlambda.Storage.Store.{
  Store, StoredAggregatedPayload, get_state, iter_known_aggregated_payloads,
  extract_latest_attestations, get_block_roots,
}
use ethlambda.Chain.Error.{StoreError, missing_parent_state, not_proposer}
use ethlambda.Chain.Target.{OutOfFuel}
use ethlambda.Chain.Tick.{get_proposal_head}
use ethlambda.Chain.Build.{Proofs, Built, build_block}

module _ (S : Ssz) (R : Roots S) (X : Xmss) where
  unfoldable pub as_attestations : Map ℕ AttestationData → List Attestation
  as_attestations = map (λ e. record { validator_id = e.0; attestation_data = e.1 })

  unfoldable pub proofs_of : Map SignatureKey (List (StoredAggregatedPayload S)) → Proofs S R
  proofs_of = map (λ e. (e.0, map (λ p. p.proof) e.1))

  abbrev pub Produced : Type 0
  Produced = Block S × List (AggregatedSignatureProof S)

  -- The block on a head state; `none` when the loop's fuel ends.
  unfoldable pub produce_on :
      ℕ → Store S → H256 → State S → ℕ → ℕ → Option (Outcome StoreError (Built S R))
  unfolding as_attestations proofs_of
  produce_on fuel store head_root head_state slot validator_index =
      let known_payloads = iter_known_aggregated_payloads S store in
      let known_attestations =
        extract_latest_attestations S store (map (λ e. e.0) known_payloads) in
      build_block S R fuel head_state slot validator_index head_root
        (as_attestations known_attestations) (get_block_roots S store) (proofs_of known_payloads)

  unfoldable pub produce_at :
      ℕ → Store S → H256 → ℕ → ℕ → Outcome OutOfFuel (Store S × Outcome StoreError Produced)
  unfolding produce_on
  produce_at fuel store head_root slot validator_index = elim (get_state S store head_root) [
    | none ↦ ok (store, err (missing_parent_state head_root slot))
    | some head_state ↦
        if is_proposer validator_index slot (length head_state.validators)
        then elim (produce_on fuel store head_root head_state slot validator_index) [
          | none ↦ panic
          | some panic ↦ panic
          | some (err e) ↦ ok (store, err e)
          | some (ok built) ↦ ok (store, ok (built.0, built.2))
        ]
        else ok (store, err (not_proposer validator_index slot))
  ]

  unfoldable pub produce_block_with_signatures :
      ℕ → Store S → ℕ → ℕ → Outcome OutOfFuel (Store S × Outcome StoreError Produced)
  unfolding produce_at
  produce_block_with_signatures fuel store slot validator_index =
      get_proposal_head S R X fuel store slot >>= λ found.
      produce_at fuel found.0 found.1 slot validator_index
