-- ===== src/Chain/Tests.antt =====
-- Votes and targets on the store of `Storage.Tests`, and bits from indices.
use ethlambda.Base.{
  ℕ, ◌+◌, ◌*◌, ◌/◌, ◌≤◌, ◌≡◌, ◌↔◌, ◌⊎◌, inl, inr, refl, Bool, some, List, [], ◌∷◌, length, any,
  ◌==◌, ◌||◌, nat_eq, pair_eq, arith, ok, lookup, insert,
}
use ethlambda.Ssz.{list_ssz}
use ethlambda.Ssz.Laws.{list_ssz-SszLaws}
use ethlambda.Types.{H256, Checkpoint, State}
use ethlambda.Stf.Error.{Error}
use ethlambda.Storage.Store.{
  StoredAggregatedPayload, Store, get_block_header, safe_target_slot, get_live_chain, head_state,
  set_safe_target, extract_latest_attestations, extract_latest_known_attestations,
}
use ethlambda.Storage.Tests.{header_at, at, vote, tables, store}
use ethlambda.ForkChoice.{Weights, weight, compute_block_weights}
use ethlambda.ForkChoice.Children.{Heads}
use ethlambda.Storage.Payloads.{SignatureKey}
use ethlambda.Chain.Head.{all_payload_keys, min_target_score, update_safe_target, update_head}
use ethlambda.Chain.Head.SafeTarget.{IsReady, update_safe_target_lem, update_head_lem}
use ethlambda.Chain.Validation.{
  intervals_per_slot, Names, validate_attestation_data, validate_attestation_data_iff,
}
use ethlambda.Chain.Target.{get_attestation_target}
use ethlambda.Chain.Target.Justifiable.{IsLinked, IsTarget, get_attestation_target_lem}
use ethlambda.Chain.Aggregation.{bit, aggregation_bits_from_validator_indices, aggregation_bits_lem}

head_found : get_block_header list_ssz store 203 ≡ some (header_at 3 202)
unfolding get_block_header lookup
head_found = refl

validate_attestation_data_iff_example :
    (validate_attestation_data list_ssz store vote ≡ ok tt)
    ↔ Names list_ssz store (at 201 1)
      × Names list_ssz store (at 202 2)
      × Names list_ssz store (at 203 3)
      × (1 ≤ 2)
      × (2 ≤ 3)
      × (3 ≤ 15 / intervals_per_slot + 1)
validate_attestation_data_iff_example = validate_attestation_data_iff list_ssz store vote

store-IsLinked : IsLinked list_ssz store 1
unfolding get_block_header lookup
store-IsLinked root h found above =
    let which : (h ≡ header_at 2 201) ⊎ (h ≡ header_at 3 202) = ground (arith, found, above) in
    elim which [
      | inl e ↦ rw e (header_at 1 200, refl, omega arith)
      | inr e ↦ rw e (header_at 2 201, refl, omega arith)
    ]

safe_slot : safe_target_slot list_ssz store ≡ some 1
unfolding safe_target_slot lookup
safe_slot = refl

get_attestation_target_lem_example :
    (c : Checkpoint) × (get_attestation_target list_ssz store 4 ≡ ok c)
    × IsTarget list_ssz store (header_at 3 202) c
get_attestation_target_lem_example =
    get_attestation_target_lem list_ssz store 4 1 (header_at 3 202) store-IsLinked head_found
      safe_slot (omega arith) (omega arith)

aggregation_bits_lem_example :
    (bits : List Bool) × (aggregation_bits_from_validator_indices list_ssz {E = Error} (4 ∷ 1 ∷ [])
      ≡ ok bits)
    × (length bits ≡ 5)
    × ((i : ℕ) → bit bits i ≡ any (λ j. j == i) (4 ∷ 1 ∷ []))
aggregation_bits_lem_example =
    aggregation_bits_lem list_ssz list_ssz-SszLaws (4 ∷ 1 ∷ []) (omega arith)

-- the store with a head state of three validators and a vote of each for the head, in both buffers
abbrev head_state_of : State list_ssz
head_state_of = record {
  config = record { genesis_time = 5 };
  slot = 3;
  latest_block_header = header_at 3 202;
  latest_justified = at 201 1;
  latest_finalized = at 201 1;
  historical_block_hashes = [];
  justified_slots = [];
  validators =
      record { pubkey = []; index = 0 }
      ∷ record { pubkey = []; index = 1 }
      ∷ record { pubkey = []; index = 2 }
      ∷ [];
  justifications_roots = [];
  justifications_validators = [];
}

abbrev proof_of : StoredAggregatedPayload list_ssz
proof_of = record { slot = 3; proof = record { participants = []; proof_data = [] } }

abbrev voted : Store list_ssz
voted = record store {
  tables = record tables { states = (203, head_state_of) ∷ [] };
  new_payloads = record { entries = ((0, 403), proof_of) ∷ []; capacity = 2 };
  known_payloads = record {
    entries = ((1, 403), proof_of) ∷ ((2, 403), proof_of) ∷ [];
    capacity = 2;
  };
}

voted-IsReady : IsReady list_ssz 5 voted
unfolding get_live_chain lookup insert
voted-IsReady = record {
  forest = record { older = λ root parent pp slot pslot h k. ground (arith, h, k) };
  below = record { below = λ root p slot h. ground (arith, h) };
  unique = record { at = λ root v member. ground (arith, member) };
  slot = 1;
  parent = 200;
  nonzero = λ h. omega arith;
  known = refl;
}

voted_at_head : head_state list_ssz voted ≡ some head_state_of
unfolding head_state lookup
voted_at_head = refl

update_safe_target_lem_example :
    (target : H256) × (w : Weights) × (update_safe_target list_ssz 5 voted
      ≡ some (set_safe_target list_ssz voted target))
    × (compute_block_weights 5 voted-IsReady.slot
          (get_live_chain list_ssz voted)
          (extract_latest_attestations list_ssz voted (all_payload_keys list_ssz voted))
        ≡ some w)
    × ((key : SignatureKey)
        → any (λ k. k == key) (all_payload_keys list_ssz voted) ≡ (
            any (λ e. e.0 == key) voted.known_payloads.entries
            || any (λ e. e.0 == key) voted.new_payloads.entries))
    × Heads w (min_target_score list_ssz 3) (get_live_chain list_ssz voted) 201 target
    × ((201 ≡ target) ⊎ (6 ≤ 3 * weight w target))
update_safe_target_lem_example =
    update_safe_target_lem list_ssz 5 voted head_state_of voted-IsReady voted_at_head

update_head_lem_example :
    (head : H256) × (w : Weights) × (update_head list_ssz 5 voted
      ≡ some (record voted { metadata = record (voted.metadata) { head = head } }))
    × (compute_block_weights 5 voted-IsReady.slot
          (get_live_chain list_ssz voted)
          (extract_latest_known_attestations list_ssz voted)
        ≡ some w)
    × Heads w 0 (get_live_chain list_ssz voted) 201 head
update_head_lem_example = update_head_lem list_ssz 5 voted voted-IsReady
