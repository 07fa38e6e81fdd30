-- ===== src/Chain/Build.antt =====
-- `build_block`, `select_aggregated_proofs` and `produce_block_with_signatures` of
-- crates/blockchain/src/store.rs. `none` means that a loop ran out of fuel. Sets and maps are read in
-- the order of their lists; the source's order is unspecified.
pub mod Accepted
pub mod Cover
pub mod Ends
use ethlambda.Base.{
  ℕ, zero, suc, ◌%◌, Bool, true, false, not, ◌&&◌, ◌||◌, Option, none, some, List, [], ◌∷◌, ◌++◌,
  length, any, filter, map, leb, ◌==◌, nat_eq, pair_eq, if◌then◌else◌, unwrap_or, Map, lookup,
  Outcome, ok, err, panic, ensure, ok_or, expect, ◌>>=◌, ◌>>◌,
}
use ethlambda.Ssz.{Ssz}
use ethlambda.Types.{
  H256, zero_hash, validator_registry_limit, Checkpoint, checkpoint_eq, AttestationData,
  Attestation, AggregatedAttestation, AggregatedSignatureProof, Block, State, Roots,
  validator_indices,
}
use ethlambda.Stf.Blocks.{process_slots, process_block}
use ethlambda.Storage.Payloads.{SignatureKey}
use ethlambda.Chain.Error.{StoreError, map_err, state_transition_failed}
use ethlambda.Chain.Aggregation.{aggregate_attestations_by_data}

abbrev pub is_empty {ℓ} : {A : Type ℓ} → List A → Bool
is_empty [] = true
is_empty (x ∷ l) = false

module _ (S : Ssz) (R : Roots S) where
  open R use {attestation_data_hash, state_hash}

  abbrev pub Proof : Type 0
  Proof = AggregatedSignatureProof S

  abbrev pub Proofs : Type 0
  Proofs = Map SignatureKey (List Proof)

  abbrev pub key_of : Attestation → SignatureKey
  key_of a = (a.validator_id, attestation_data_hash a.attestation_data)

  abbrev pub has_key : SignatureKey → List SignatureKey → Bool
  has_key k keys = any (λ j. j == k) keys

  -- The vote is for a known head, from the justified checkpoint, new, and has a proof.
  unfoldable pub is_wanted :
      List H256 → Proofs → Checkpoint → List SignatureKey → Attestation → Bool
  is_wanted known_block_roots payloads justified included_keys a =
      any (λ r. r == a.attestation_data.head.root) known_block_roots
      && (a.attestation_data.source == justified
          && (not (has_key (key_of a) included_keys)
              && (elim (lookup (key_of a) payloads) [ none ↦ false | some proofs ↦ true ])))

  -- The votes one pass adds, and the keys included after it.
  unfoldable pub new_attestations :
      List H256
      → Proofs
      → Checkpoint
      → List Attestation
      → List SignatureKey
      → List Attestation × List SignatureKey
  unfolding is_wanted
  new_attestations known_block_roots payloads justified [] included_keys = ([], included_keys)
  new_attestations known_block_roots payloads justified (a ∷ available) included_keys =
      let wanted = is_wanted known_block_roots payloads justified included_keys a in
      let rest =
        new_attestations known_block_roots payloads justified available
          (if wanted then included_keys ++ (key_of a ∷ []) else included_keys) in
      ((if wanted then a ∷ rest.0 else rest.0), rest.1)

  -- the block without its state root, if its attestations are within the limit
  unfoldable pub draft :
      ℕ → ℕ → H256 → List (AggregatedAttestation S) → Outcome StoreError (Block S)
  draft slot proposer_index parent_root attestations =
      if leb (length attestations) validator_registry_limit
      then ok (record {
        slot = slot;
        proposer_index = proposer_index;
        parent_root = parent_root;
        state_root = zero_hash;
        body = record { attestations = attestations };
      })
      else panic

  -- `process_slots` and `process_block`
  unfoldable pub apply_draft : State S → Block S → Outcome StoreError (State S)
  apply_draft head_state block = do
    advanced ← map_err state_transition_failed (process_slots S R head_state block.slot)
    map_err state_transition_failed (process_block S R advanced block)

  unfoldable pub candidate_state :
      State S → ℕ → ℕ → H256 → List Attestation → Outcome StoreError (State S)
  unfolding draft apply_draft
  candidate_state head_state slot proposer_index parent_root included = do
    aggregated ← aggregate_attestations_by_data S R included
    block ← draft slot proposer_index parent_root aggregated
    apply_draft head_state block

  -- The loop to the fixed point.
  unfoldable pub collect_attestations :
      ℕ
      → State S
      → ℕ
      → ℕ
      → H256
      → List Attestation
      → List H256
      → Proofs
      → List Attestation
      → List SignatureKey
      → Option (Outcome StoreError (List Attestation))
  unfolding candidate_state new_attestations
  collect_attestations zero head_state slot proposer_index parent_root available known payloads
        included keys =
      none
  collect_attestations (suc fuel) head_state slot proposer_index parent_root available known
        payloads included keys =
      elim (candidate_state head_state slot proposer_index parent_root included) [
        | err e ↦ some (err e)
        | panic ↦ some panic
        | ok post_state ↦
            let found =
              new_attestations known payloads post_state.latest_justified available keys in
            elim (is_empty available || (is_empty known || is_empty found.0)) [
              | true ↦ some (ok included)
              | false ↦
                  collect_attestations fuel head_state slot proposer_index parent_root available
                    known payloads (included ++ found.0) found.1
            ]
      ]

  -- what of the proof's participants is among the remaining validators
  unfoldable pub covered_by : List ℕ → Proof → List ℕ
  covered_by remaining p =
      filter (λ vid. any (λ r. r == vid) remaining) (validator_indices S p.participants)

  -- `max_by_key`: the last of those that cover most
  unfoldable pub best_proof : List ℕ → Proof → List Proof → Proof
  unfolding covered_by
  best_proof remaining best [] = best
  best_proof remaining best (p ∷ candidates) =
      best_proof remaining
        (if leb (length (covered_by remaining best)) (length (covered_by remaining p))
          then p
          else best)
        candidates

  -- The proofs for one vote, until no validator remains or none can be covered.
  unfoldable pub cover :
      ℕ → AttestationData → Proofs → List ℕ → Option (List (AggregatedAttestation S × Proof))
  unfolding best_proof
  cover fuel d payloads [] = some []
  cover zero d payloads (target_id ∷ remaining) = none
  cover (suc fuel) d payloads (target_id ∷ remaining) =
      let all = target_id ∷ remaining in
      elim (unwrap_or (lookup (target_id, attestation_data_hash d) payloads) []) [
        | [] ↦ some []
        | first ∷ candidates ↦
            let proof = best_proof all first candidates in
            let covered = covered_by all proof in
            elim (is_empty covered) [
              | true ↦ some []
              | false ↦
                  elim (cover fuel d payloads
                    (filter (λ vid. not (any (λ c. c == vid) covered)) all)) [
                      | none ↦ none
                      | some rest ↦ some (
                          (
                            record { aggregation_bits = proof.participants; attestation_data = d },
                            proof,
                          )
                          ∷ rest)
                    ]
            ]
      ]

  unfoldable pub cover_all :
      Proofs → List (AggregatedAttestation S) → Option (List (AggregatedAttestation S × Proof))
  unfolding cover
  cover_all payloads [] = some []
  cover_all payloads (a ∷ aggregated) =
      let ids = validator_indices S a.aggregation_bits in
      elim (cover (length ids) a.attestation_data payloads ids) [
        | none ↦ none
        | some here ↦ elim (cover_all payloads aggregated) [
          | none ↦ none
          | some rest ↦ some (here ++ rest)
        ]
      ]

  unfoldable pub select_aggregated_proofs :
      List Attestation
      → Proofs
      → Option (Outcome StoreError (List (AggregatedAttestation S × Proof)))
  unfolding cover_all
  select_aggregated_proofs attestations payloads =
      elim (aggregate_attestations_by_data S R {E = StoreError} attestations) [
        | err e ↦ some (err e)
        | panic ↦ some panic
        | ok aggregated ↦ elim (cover_all payloads aggregated) [
          | none ↦ none
          | some results ↦ some (ok results)
        ]
      ]

  abbrev pub Built : Type 0
  Built = Block S × State S × List Proof

  -- The block of the selected votes, with its state root, the state after it and its proofs.
  unfoldable pub finish_block :
      State S → ℕ → ℕ → H256 → List (AggregatedAttestation S × Proof) → Outcome StoreError Built
  unfolding draft apply_draft
  finish_block head_state slot proposer_index parent_root selected = do
    block ← draft slot proposer_index parent_root (map (λ e. e.0) selected)
    post_state ← apply_draft head_state block
    ok (record block { state_root = state_hash post_state }, post_state, map (λ e. e.1) selected)

  unfoldable pub build_block :
      ℕ
      → State S
      → ℕ
      → ℕ
      → H256
      → List Attestation
      → List H256
      → Proofs
      → Option (Outcome StoreError Built)
  unfolding collect_attestations select_aggregated_proofs finish_block
  build_block fuel head_state slot proposer_index parent_root available known payloads =
      elim (collect_attestations fuel head_state slot proposer_index parent_root available known
        payloads [] []) [
          | none ↦ none
          | some (err e) ↦ some (err e)
          | some panic ↦ some panic
          | some (ok included) ↦ elim (select_aggregated_proofs included payloads) [
            | none ↦ none
            | some (err e) ↦ some (err e)
            | some panic ↦ some panic
            | some (ok selected) ↦
                some (finish_block head_state slot proposer_index parent_root selected)
          ]
        ]
