-- ===== src/Server/Duties.antt =====
-- The duties of BlockChainServer at a tick: crates/blockchain/src/lib.rs. The order of the node's
-- validators is that of its keys; the source's order is unspecified.
use ethlambda.Base.{
  ℕ, ◌-◌, ◌*◌, ◌/◌, ◌%◌, ◌^◌, true, false, ◌&&◌, Option, none, some, List, [], ◌∷◌, ◌++◌, map,
  length, leb, ltb, ◌==◌, nat_eq, if◌then◌else◌, Outcome, ok, err, panic, expect, ◌>>=◌,
}
use ethlambda.Ssz.{Ssz}
use ethlambda.Types.{
  H256, Checkpoint, AttestationData, Attestation, SignedAttestation, AggregatedSignatureProof,
  SignedBlockWithAttestation, validator_registry_limit, Roots,
}
use ethlambda.Types
use ethlambda.Xmss.{Xmss}
use ethlambda.Stf.Blocks.{is_proposer}
use ethlambda.Storage.Store.{head_state}
use ethlambda.Chain.Target.{OutOfFuel, produce_attestation_data, get_attestation_target}
use ethlambda.Chain.Tick.{milliseconds_per_interval, milliseconds_per_slot}
use ethlambda.Chain.Tick
use ethlambda.Chain.Produce.{produce_block_with_signatures}
use ethlambda.KeyManager.{validator_ids, sign_attestation}
use ethlambda.Server.{
  BlockChainServer, Told, publish_block, publish_attestation, publish_aggregated_attestation,
  process_block,
}

-- the time to the next boundary of an interval
unfoldable pub ms_to_next_interval : ℕ → ℕ
ms_to_next_interval ms_since_epoch =
    milliseconds_per_interval - ms_since_epoch % milliseconds_per_interval

-- `find`
unfoldable pub find_proposer : List ℕ → ℕ → ℕ → Option ℕ
find_proposer [] slot num_validators = none
find_proposer (vid ∷ ids) slot num_validators =
    let rest = find_proposer ids slot num_validators in
    if is_proposer vid slot num_validators then some vid else rest

module _ (S : Ssz) (R : Roots S) (X : Xmss) where
  abbrev pub Done : Type 0
  Done = Outcome OutOfFuel (BlockChainServer S R X × List (Told S R X))

  unfoldable pub get_our_proposer : BlockChainServer S R X → ℕ → Outcome OutOfFuel (Option ℕ)
  unfolding find_proposer
  get_our_proposer server slot = expect (head_state S server.store) >>= λ state.
      ok (find_proposer (validator_ids S R X server.key_manager) slot (length state.validators))

  -- The votes of the node's validators, less that of the slot's proposer and those not signed.
  unfoldable pub attest :
      BlockChainServer S R X → AttestationData → ℕ → ℕ → List ℕ → List (Told S R X)
  attest server d slot num_validators [] = []
  attest server d slot num_validators (validator_id ∷ ids) =
      let rest = attest server d slot num_validators ids in
      if is_proposer validator_id slot num_validators
      then rest
      else elim (sign_attestation S R X server.key_manager validator_id d) [
        | ok signature ↦
            publish_attestation
              (record { validator_id = validator_id; attestation_data = d; signature = signature })
            ∷ rest
        | err e ↦ rest
        | panic ↦ rest
      ]

  unfoldable pub produce_attestations :
      ℕ → BlockChainServer S R X → ℕ → Outcome OutOfFuel (List (Told S R X))
  unfolding attest
  produce_attestations fuel server slot = expect (head_state S server.store) >>= λ state.
      produce_attestation_data S server.store fuel slot >>= λ d.
      ok (attest server d slot (length state.validators) (validator_ids S R X server.key_manager))

  unfoldable pub own_attestation :
      BlockChainServer S R X → ℕ → ℕ → Types.Block S → Checkpoint → Attestation
  own_attestation server slot validator_id block target = record {
    validator_id = validator_id;
    attestation_data = record {
      slot = slot;
      head = record { root = R.block_hash block; slot = block.slot };
      target = target;
      source = server.store.metadata.latest_justified;
    };
  }

  -- The block is signed, imported by the node itself, and published if the import succeeds.
  unfoldable pub import_and_publish :
      ℕ
      → BlockChainServer S R X
      → Types.Block S
      → List (AggregatedSignatureProof S)
      → Attestation
      → List ℕ
      → Done
  import_and_publish fuel server block proofs attestation signature =
      let signed_block : SignedBlockWithAttestation S = record {
        message = record { block = block; proposer_attestation = attestation };
        signature = record { attestation_signatures = proofs; proposer_signature = signature };
      } in
      process_block S R X fuel server signed_block >>= λ processed. elim processed.1 [
        | ok t ↦ ok (processed.0, publish_block signed_block ∷ [])
        | err e ↦ ok (processed.0, [])
        | panic ↦ panic
      ]

  -- The number of proofs is within the limit, or the code panics.
  unfoldable pub propose_block : ℕ → BlockChainServer S R X → ℕ → ℕ → Done
  unfolding own_attestation import_and_publish
  propose_block fuel server slot validator_id =
      produce_block_with_signatures S R X fuel server.store slot validator_id >>= λ produced.
      let server' : BlockChainServer S R X = record server { store = produced.0 } in
      elim produced.1 [
        | panic ↦ panic
        | err e ↦ ok (server', [])
        | ok (block, proofs) ↦ get_attestation_target S server'.store fuel >>= λ target.
            let attestation = own_attestation server' slot validator_id block target in
            elim (sign_attestation S R X server'.key_manager validator_id
              attestation.attestation_data) [
                | err e ↦ ok (server', [])
                | panic ↦ panic
                | ok signature ↦
                    if leb (length proofs) validator_registry_limit
                    then import_and_publish fuel server' block proofs attestation signature
                    else panic
              ]
      ]

  -- At interval 0, our proposer of the slot.
  unfoldable pub proposer_at : BlockChainServer S R X → ℕ → ℕ → Outcome OutOfFuel (Option ℕ)
  unfolding get_our_proposer
  proposer_at server slot interval =
      if interval == 0 && ltb 0 slot then get_our_proposer server slot else ok none

  unfoldable pub propose_if_ours : ℕ → BlockChainServer S R X → ℕ → Option ℕ → Done
  unfolding propose_block
  propose_if_ours fuel server slot none = ok (server, [])
  propose_if_ours fuel server slot (some validator_id) = propose_block fuel server slot validator_id

  unfoldable pub run_duties : ℕ → BlockChainServer S R X → ℕ → ℕ → Option ℕ → Done
  unfolding propose_if_ours produce_attestations
  run_duties fuel server slot interval proposer =
      propose_if_ours fuel server slot proposer >>= λ proposed.
      (if interval == 1 then produce_attestations fuel proposed.0 slot else ok []) >>= λ votes.
      ok (proposed.0, proposed.1 ++ votes)

  unfoldable pub on_tick : ℕ → BlockChainServer S R X → ℕ → Done
  unfolding proposer_at run_duties
  on_tick fuel server timestamp_ms =
      let genesis_time_ms = (server.store.metadata.config.genesis_time * 1000) % 2 ^ 64 in
      let time_since_genesis_ms = timestamp_ms - genesis_time_ms in
      let slot = time_since_genesis_ms / milliseconds_per_slot in
      let interval = (time_since_genesis_ms % milliseconds_per_slot) / milliseconds_per_interval in
      expect (head_state S server.store) >>= λ state.
      if length state.validators == 0
      then ok (server, [])
      else (proposer_at server slot interval >>= λ proposer.
          Tick.on_tick S R X fuel server.store timestamp_ms
            (elim proposer [ none ↦ false | some vid ↦ true ]) server.is_aggregator
          >>= λ ticked.
              run_duties fuel (record server { store = ticked.0 }) slot interval proposer
              >>= λ done.
                  ok (done.0, map (λ a. publish_aggregated_attestation a) ticked.1 ++ done.1))
