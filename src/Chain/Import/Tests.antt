-- ===== src/Chain/Import/Tests.antt =====
-- The import of a block whose votes justify its parent, with signatures that name what they sign.
use ethlambda.Base.{
  ℕ, ◌+◌, ◌^◌, ◌≡◌, ◌≤◌, ◌↔◌, ◌⊎◌, refl, true, some, List, [], ◌∷◌, length, any, ◌==◌, nat_eq,
  pair_eq, arith, ok, err, panic, lookup, insert,
}
use ethlambda.Ssz.{list_ssz}
use ethlambda.Ssz.Laws.{list_ssz-SszLaws}
use ethlambda.Types.{
  historical_roots_limit, AttestationData, AggregatedAttestation, AggregatedSignatureProof,
  SignedBlockWithAttestation, State, validator_indices,
}
use ethlambda.Xmss.{Xmss, verify_aggregated_signature}
use ethlambda.Stf.Tests.{
  roots, anchor, first, first-IsValid, vote, second_block, second, second_run,
}
use ethlambda.Storage.Store.{Store, has_state, get_state}
use ethlambda.Storage.Init.{with_state_root}
use ethlambda.Storage.Tests.{header_at}
use ethlambda.Storage.Store.{
  insert_state, insert_attestation_data_by_root_batch, insert_attestation_data_by_root,
  insert_known_aggregated_payloads_batch, get_live_chain, live_entries, collect,
  extract_latest_known_attestations, extract_latest_attestations, extract_votes,
  get_attestation_data_by_root, update_latest, insert_gossip_signature,
}
use ethlambda.Storage.Payloads.{push_batch, push, unique_keys, dedup_keys}
use ethlambda.Storage.Prune.{update_checkpoints, prune_on_advance, set_checkpoints}
use ethlambda.Storage.Blocks.{insert_signed_block, write_signed_block, header, empty_body_root}
use ethlambda.ForkChoice.{
  walk_back, add_weights, compute_block_weights, is_eligible, build_children, key_le, max_by_weight,
  descend, min_by_slot, resolve_start, compute_lmd_ghost_head,
}
use ethlambda.Chain.Gossip.{payload_entries, in_our_subnet, compute_subnet_id}
use ethlambda.Chain.Head.{update_head}
use ethlambda.Chain.Error.{missing_parent_state}
use ethlambda.Chain.Verify.{
  public_keys_of, verify_attestation, verify_attestations, verify_proposer, verify_signatures,
}
use ethlambda.Chain.Verify.Verified.{
  AllProven, all_done, IsProposed, verify_signatures_iff, verify_signatures-panic,
}
use ethlambda.Chain.Import.{
  import_block, record_block, advance_checkpoints, body_data, body_payloads, keep_proposer_vote,
  check_block, on_block_core, on_block,
}
use ethlambda.Chain.Import.Result.{Passed, on_block_core-checkpoints, on_block-err}
use ethlambda.Chain.Import.Accepted.{Holds, on_block_core-ok, on_block_core-AllValid, AllValid}

-- A signature lists the messages it signs.
abbrev pub toy : Xmss
toy = record {
  PublicKey = List ℕ;
  Signature = List ℕ;
  SecretKey = List ℕ;
  Aggregate = List ℕ;
  public_key_from_bytes = λ bytes. some bytes;
  signature_from_bytes = λ bytes. some bytes;
  signature_to_bytes = λ signature. signature;
  verify = λ key slot message signature. any (λ m. m == message) signature;
  sign = λ key slot message. some (message ∷ []);
  aggregate = λ keys signatures message slot. some (message ∷ []);
  aggregate_to_bytes = λ aggregate. aggregate;
  aggregate_from_bytes = λ bytes. some bytes;
  verify_aggregate = λ keys message aggregate slot. any (λ m. m == message) aggregate;
}

abbrev pub proof : AggregatedSignatureProof list_ssz
proof = record { participants = true ∷ true ∷ true ∷ []; proof_data = 401 ∷ [] }

abbrev pub own_vote : AttestationData
own_vote = record {
  slot = 2;
  head = record { root = 202; slot = 2 };
  target = record { root = 201; slot = 1 };
  source = anchor;
}

abbrev pub signed : SignedBlockWithAttestation list_ssz
signed = record {
  message = record {
    block = second_block;
    proposer_attestation = record { validator_id = 2; attestation_data = own_vote };
  };
  signature = record { attestation_signatures = proof ∷ []; proposer_signature = 402 ∷ [] };
}

-- the chain of the anchor and the first block, with the state after it
abbrev pub base : Store list_ssz
base = record {
  metadata = record {
    time = 10;
    config = record { genesis_time = 5 };
    head = 201;
    safe_target = 201;
    latest_justified = anchor;
    latest_finalized = anchor;
  };
  tables = record {
    block_headers = (200, header_at 0 0) ∷ (201, first.latest_block_header) ∷ [];
    block_bodies = [];
    block_signatures = [];
    states = (201, first) ∷ [];
    gossip_signatures = [];
    attestation_data_by_root = [];
    live_chain = ((0, 200), 0) ∷ ((1, 201), 200) ∷ [];
  };
  new_payloads = record { entries = []; capacity = 4 };
  known_payloads = record { entries = []; capacity = 4 };
  gossip_signatures_count = 0;
}

verify_signatures_iff_example :
    (verify_signatures list_ssz roots toy first signed ≡ ok tt)
    ↔ AllProven list_ssz roots toy first.validators (vote ∷ []) (proof ∷ [])
      × IsProposed list_ssz roots toy first.validators signed
verify_signatures_iff_example = verify_signatures_iff list_ssz roots toy first signed

abbrev far_vote : AggregatedAttestation list_ssz
far_vote = record {
  aggregation_bits = true ∷ [];
  attestation_data = record own_vote { slot = 2 ^ 32 };
}

abbrev far_proof : AggregatedSignatureProof list_ssz
far_proof = record { participants = true ∷ []; proof_data = [] }

abbrev far_block : SignedBlockWithAttestation list_ssz
far_block = record signed {
  message = record (signed.message) {
    block = record second_block { body = record { attestations = far_vote ∷ [] } };
  };
  signature = record { attestation_signatures = far_proof ∷ []; proposer_signature = [] };
}

verify_signatures-panic_example : verify_signatures list_ssz roots toy first far_block ≡ panic
unfolding validator_indices
verify_signatures-panic_example =
    verify_signatures-panic list_ssz roots toy first far_block [] [] [] [] far_vote far_proof refl
      refl refl all_done refl refl (omega arith)

signatures_pass : verify_signatures list_ssz roots toy first signed ≡ ok tt
unfolding verify_signatures verify_attestations verify_attestation public_keys_of verify_proposer
    validator_indices verify_aggregated_signature
signatures_pass = refl

passes :
    check_block list_ssz roots toy base signed true
    ≡ ok (some (with_state_root list_ssz roots second 102))
unfolding check_block has_state get_state lookup
passes = rw (signatures_pass, second_run) refl

pub imported : (on_block_core list_ssz roots toy 5 base signed true (1 ∷ [])).1 ≡ ok tt
unfolding on_block_core import_block record_block advance_checkpoints body_data body_payloads
    payload_entries update_checkpoints prune_on_advance set_checkpoints insert_signed_block
    write_signed_block header empty_body_root insert_state insert_attestation_data_by_root_batch
    insert_attestation_data_by_root insert_known_aggregated_payloads_batch push_batch push
    update_head compute_lmd_ghost_head walk_back add_weights compute_block_weights is_eligible
    build_children key_le max_by_weight descend min_by_slot resolve_start get_live_chain
    live_entries collect extract_latest_known_attestations extract_latest_attestations extract_votes
    get_attestation_data_by_root update_latest unique_keys dedup_keys keep_proposer_vote
    in_our_subnet compute_subnet_id insert_gossip_signature validator_indices lookup insert
imported = rw (passes, on_block_core) refl

on_block_core-ok_example :
    let store' = (on_block_core list_ssz roots toy 5 base signed true (1 ∷ [])).0 in
    ((has_state list_ssz base 202 ≡ true) × (store' ≡ base))
    ⊎ ((post : State list_ssz) × Passed list_ssz roots toy base signed true post
        × Holds list_ssz roots toy base store' signed post)
on_block_core-ok_example =
    on_block_core-ok list_ssz roots toy 5 base signed true (1 ∷ []) (λ h. absurd (omega arith))
      imported

on_block_core-checkpoints_example :
    let store' = (on_block_core list_ssz roots toy 5 base signed true (1 ∷ [])).0 in
    (0 ≤ store'.metadata.latest_justified.slot)
    × (0 ≤ store'.metadata.latest_finalized.slot)
    × (store'.metadata.time ≡ 10)
on_block_core-checkpoints_example =
    on_block_core-checkpoints list_ssz roots toy 5 base signed true (1 ∷ [])

base_fits :
    (parent : State list_ssz)
    → get_state list_ssz base 201 ≡ some parent
    → length parent.justifications_roots + 1 ≤ historical_roots_limit
unfolding get_state lookup
base_fits parent h = let same : first ≡ parent = cc h in rw (← same) (omega arith)

base-AllValid : AllValid list_ssz roots toy base
unfolding get_state lookup
base-AllValid = record {
  at = λ root s h. let same : first ≡ s = ground (arith, h) in rw (← same) first-IsValid;
}

on_block_core-AllValid_example :
    AllValid list_ssz roots toy (on_block_core list_ssz roots toy 5 base signed true (1 ∷ [])).0
on_block_core-AllValid_example =
    on_block_core-AllValid list_ssz roots toy list_ssz-SszLaws 5 base signed true (1 ∷ []) base_fits
      base-AllValid

abbrev pub orphan : SignedBlockWithAttestation list_ssz
orphan = record signed {
  message = record (signed.message) { block = record second_block { parent_root = 999 } };
}

orphan_refused : (on_block list_ssz roots toy 5 base orphan []).1 ≡ err (missing_parent_state 999 2)
unfolding on_block on_block_core check_block has_state get_state lookup
orphan_refused = refl

on_block-err_example : (on_block list_ssz roots toy 5 base orphan []).0 ≡ base
on_block-err_example =
    on_block-err list_ssz roots toy 5 base orphan [] (missing_parent_state 999 2) orphan_refused
