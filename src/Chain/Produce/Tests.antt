-- ===== src/Chain/Produce/Tests.antt =====
-- Runs of gossip, ticks and block production on the chain of the import's tests.
use ethlambda.Base.{
  ℕ, ◌≡◌, ◌↔◌, ◌⊎◌, refl, true, false, some, List, [], ◌∷◌, ltb, if◌then◌else◌, arith, Outcome, ok,
  ◌>>=◌, lookup, insert, remove, retain, nat_eq, pair_eq,
}
use ethlambda.Ssz.{list_ssz}
use ethlambda.Ssz.Laws.{list_ssz-SszLaws}
use ethlambda.Types.{validator_indices, Attestation, SignedAggregatedAttestation, State}
use ethlambda.Stf.Tests.{roots, first, vote, second_block, second}
use ethlambda.Stf.JustifiedSlots.{
  relative_index, set_justified, extend_to_slot, shift_window, is_slot_justified,
}
use ethlambda.Stf.Justifiable.{slot_is_justifiable_after}
use ethlambda.Stf.Attestations.{
  process_attestation, serialize_justifications, sort, insert_sorted, load_votes, load_tally,
  root_slots, process_attestations, process_each, is_valid_vote, checkpoint_exists, mark_votes,
  justify, try_finalize, justifiable_between, range_from, is_unfinalized, write_bits, flat_votes,
  latest_slots,
}
use ethlambda.Stf.Blocks.{
  cache_state_root, process_slots, process_block, process_block_header, validate_header,
  update_history, anchor_genesis, new_header, current_proposer, is_proposer,
}
use ethlambda.Chain.Aggregation.{
  aggregate_attestations_by_data, group_votes, add_vote, aggregate_groups, set_bits, bits_of,
}
use ethlambda.Storage.Store.{Store, get_state, get_live_chain, has_state}
use ethlambda.Storage.Store.{
  promote_new_aggregated_payloads, live_entries, collect, extract_latest_known_attestations,
  extract_latest_attestations, extract_votes, get_attestation_data_by_root, update_latest,
  iter_known_aggregated_payloads, get_block_roots,
}
use ethlambda.Storage.Payloads.{
  push_batch, push, drain, unique_keys, dedup_keys, grouped, group_entries,
}
use ethlambda.Storage.Prune.{update_checkpoints, prune_on_advance, set_checkpoints}
use ethlambda.ForkChoice.{
  walk_back, add_weights, compute_block_weights, is_eligible, build_children, key_le, max_by_weight,
  descend, min_by_slot, resolve_start, compute_lmd_ghost_head,
}
use ethlambda.Chain.Head.{update_head, accept_new_attestations}
use ethlambda.Storage.Init.{with_state_root}
use ethlambda.Chain.Error.{StoreError}
use ethlambda.Chain.Validation.{validate_attestation_data}
use ethlambda.Chain.Verify.Proven.{IsProven}
use ethlambda.Chain.Gossip.{check_aggregated}
use ethlambda.Chain.Gossip.Accepted.{as_attestation, check_aggregated_iff}
use ethlambda.Chain.Head.SafeTarget.{IsReady}
use ethlambda.Chain.Tick.{get_proposal_head, fast_forward, run_intervals, interval_at, on_tick}
use ethlambda.Chain.Tick.Ready.{HasState, CanTick}
use ethlambda.Chain.Tick.Runs.{Ends, on_tick_ok}
use ethlambda.Chain.Import.{check_block}
use ethlambda.Chain.Import.Tests.{toy, proof, base, signed}
use ethlambda.Chain.Build.{
  collect_attestations, candidate_state, new_attestations, is_wanted, draft, apply_draft,
  covered_by, best_proof, cover, cover_all, select_aggregated_proofs, finish_block, Built, Proofs,
  build_block,
}
use ethlambda.Chain.Build.Accepted.{IsBuilt, build_block-IsBuilt}
use ethlambda.Chain.Build.Ends.{build_block-ends}
use ethlambda.Chain.Produce.{
  produce_at, produce_on, as_attestations, proofs_of, produce_block_with_signatures,
}
use ethlambda.Chain.Verify.{verify_signatures}
use ethlambda.Chain.Produce.Accepted.{IsProduced, produce_block_with_signatures_ok}

abbrev gossiped : SignedAggregatedAttestation list_ssz
gossiped = record { attestation_data = vote.attestation_data; proof = proof }

check_aggregated_iff_example :
    (check_aggregated list_ssz roots toy base gossiped ≡ ok tt)
    ↔ (validate_attestation_data list_ssz base vote.attestation_data ≡ ok tt)
      × ((target : State list_ssz) × (get_state list_ssz base 201 ≡ some target)
          × IsProven list_ssz roots toy target.validators
              (as_attestation list_ssz roots toy gossiped)
              proof)
check_aggregated_iff_example = check_aggregated_iff list_ssz roots toy base gossiped

-- both blocks with a state, and the votes of the second's body known
abbrev full : Store list_ssz
full = record base {
  tables = record (base.tables) {
    states = (200, first) ∷ (201, first) ∷ [];
    attestation_data_by_root = (401, vote.attestation_data) ∷ [];
  };
  known_payloads = record {
    entries =
        ((0, 401), record { slot = 1; proof = proof })
        ∷ ((1, 401), record { slot = 1; proof = proof })
        ∷ ((2, 401), record { slot = 1; proof = proof })
        ∷ [];
    capacity = 4;
  };
}

full-IsReady : IsReady list_ssz 5 full
unfolding get_live_chain lookup insert
full-IsReady = record {
  forest = record { older = λ root parent pp slot pslot h k. ground (arith, h, k) };
  below = record { below = λ root p slot h. ground (arith, h) };
  unique = record { at = λ root v member. ground (arith, member) };
  slot = 0;
  parent = 0;
  nonzero = λ h. omega arith;
  known = refl;
}

full_states : (root : ℕ) → (root ≡ 200) ⊎ (root ≡ 201) → HasState list_ssz full root
unfolding get_state lookup
full_states root h = (first, ground (arith, h), omega arith)

full-CanTick : CanTick list_ssz 5 full
unfolding get_live_chain lookup insert
full-CanTick = record {
  ready = full-IsReady;
  states = λ root v h. full_states root (ground (arith, h));
  head = full_states 201 (ground arith);
}

-- from interval 10 to interval 13, through the aggregation and the safe target
on_tick_ok_example :
    Ends list_ssz roots toy list_ssz-SszLaws 5 full
      (if ltb 10 (interval_at 5 15400) then interval_at 5 15400 else 10)
      (on_tick list_ssz roots toy 5 full 15400 true true)
on_tick_ok_example =
    on_tick_ok list_ssz roots toy list_ssz-SszLaws 5 full 15400 true true full-CanTick

abbrev available : List Attestation
available =
    record { validator_id = 0; attestation_data = vote.attestation_data }
    ∷ record { validator_id = 1; attestation_data = vote.attestation_data }
    ∷ record { validator_id = 2; attestation_data = vote.attestation_data }
    ∷ []

abbrev payloads : Proofs list_ssz roots
payloads = ((0, 401), proof ∷ []) ∷ ((1, 401), proof ∷ []) ∷ ((2, 401), proof ∷ []) ∷ []

build_block-ends_example :
    (o : Outcome StoreError (Built list_ssz roots)) × (build_block list_ssz roots 4 first 2 2 201
        available
        (200 ∷ 201 ∷ [])
        payloads
      ≡ some o)
build_block-ends_example =
    build_block-ends list_ssz roots 4 first 2 2 201 available (200 ∷ 201 ∷ []) payloads
      (omega arith)

abbrev built : Built list_ssz roots
built = (second_block, second, proof ∷ [])

built_run :
    build_block list_ssz roots 4 first 2 2 201 available (200 ∷ 201 ∷ []) payloads ≡ some (ok built)
unfolding build_block collect_attestations candidate_state new_attestations is_wanted draft
    apply_draft covered_by best_proof cover cover_all select_aggregated_proofs finish_block
    aggregate_attestations_by_data group_votes add_vote aggregate_groups set_bits bits_of
    process_slots cache_state_root process_block process_block_header validate_header update_history
    anchor_genesis new_header current_proposer process_attestations load_tally root_slots
    process_each process_attestation is_valid_vote is_slot_justified relative_index
    slot_is_justifiable_after mark_votes justify set_justified checkpoint_exists try_finalize
    justifiable_between range_from is_unfinalized shift_window serialize_justifications write_bits
    flat_votes sort insert_sorted load_votes latest_slots extend_to_slot validator_indices lookup
    insert remove retain
built_run = refl

build_block-IsBuilt_example : IsBuilt list_ssz roots first 2 2 201 built
build_block-IsBuilt_example =
    build_block-IsBuilt list_ssz roots 4 first 2 2 201 available (200 ∷ 201 ∷ []) payloads built
      built_run

head_found : get_proposal_head list_ssz roots toy 4 full 2 ≡ ok (full, 201)
unfolding get_proposal_head on_tick interval_at fast_forward run_intervals accept_new_attestations
    promote_new_aggregated_payloads drain push_batch push update_head compute_lmd_ghost_head
    walk_back add_weights compute_block_weights is_eligible build_children key_le max_by_weight
    descend min_by_slot resolve_start get_live_chain live_entries collect
    extract_latest_known_attestations extract_latest_attestations extract_votes
    get_attestation_data_by_root update_latest unique_keys dedup_keys update_checkpoints
    prune_on_advance set_checkpoints lookup insert
head_found = refl

produced_on_head : produce_on list_ssz roots toy 4 full 201 first 2 2 ≡ some (ok built)
unfolding produce_on as_attestations proofs_of iter_known_aggregated_payloads grouped group_entries
    extract_latest_attestations extract_votes get_attestation_data_by_root update_latest
    get_block_roots get_live_chain live_entries collect lookup insert
produced_on_head = built_run

produced :
    produce_block_with_signatures list_ssz roots toy 4 full 2 2
    ≡ ok (full, ok (second_block, proof ∷ []))
unfolding produce_block_with_signatures produce_at is_proposer current_proposer get_state lookup
produced = rw (head_found, produced_on_head) refl

produce_block_with_signatures_ok_example :
    (made : IsProduced list_ssz roots toy full 2 2 second_block (proof ∷ [])) × ((has_state list_ssz
          full 202
        ≡ true)
      ⊎ ((check_block list_ssz roots toy full signed false
            ≡ ok (some (with_state_root list_ssz roots made.post 102)))
          × (check_block list_ssz roots toy full signed true ≡ (
              verify_signatures list_ssz roots toy made.head_state signed >>= λ t.
              ok (some (with_state_root list_ssz roots made.post 102))))))
produce_block_with_signatures_ok_example =
    produce_block_with_signatures_ok list_ssz roots toy 4 full full 2 2 second_block (proof ∷ [])
      signed produced refl
