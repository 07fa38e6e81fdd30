-- ===== src/Stf/Tests.antt =====
-- Concrete runs of the state transition: three validators, a block without votes, and a block
-- whose votes justify the first.
use ethlambda.Base.{
  ℕ, ◌+◌, ◌-◌, ◌<◌, ◌≤◌, ◌≡◌, ◌↔◌, refl, Bool, true, false, List, [], ◌∷◌, length, ◌==◌, nat_eq,
  if◌then◌else◌, ltb, arith, ok, err, lookup, insert, remove, retain,
}
use ethlambda.Ssz.{list_ssz}
use ethlambda.Ssz.Laws.{list_ssz-SszLaws}
use ethlambda.Types.{
  H256, historical_roots_limit, Checkpoint, BlockHeader, Validator, AggregatedAttestation, Block,
  State, Roots,
}
use ethlambda.Stf.Error.{Error, state_root_mismatch, state_slot_is_newer}
use ethlambda.Stf.JustifiedSlots.{
  relative_index, set_justified, extend_to_slot, shift_window, is_slot_justified,
}
use ethlambda.Stf.JustifiedSlots.Shift.{shift_window_lem}
use ethlambda.Stf.Justifiable.{slot_is_justifiable_after}
use ethlambda.Stf.Justifiable.Rule.{MayJustify, justifiable_iff_rule, far_pronic_rejected}
use ethlambda.Stf.Invariant.{Rows}
use ethlambda.Stf.Attestations.{
  Tally, process_attestation, serialize_justifications, sort, insert_sorted, load_votes, load_tally,
  root_slots, process_attestations, process_each, is_valid_vote, checkpoint_exists, mark_votes,
  justify, try_finalize, justifiable_between, range_from, is_unfinalized, write_bits, flat_votes,
  latest_slots,
}
use ethlambda.Stf.Attestations.Justify.{IsSound}
use ethlambda.Stf.Attestations.Loop.{Turned, process_attestation_ok}
use ethlambda.Stf.Attestations.Serialize.{serialize_justifications_lem}
use ethlambda.Stf.Blocks.{
  cache_state_root, process_slots, process_block, process_block_header, state_transition,
}
use ethlambda.Stf.Blocks.Slots.{advance_slots, process_slots-eq-loop}
use ethlambda.Stf.Blocks.Header.{Extends, Updated, process_block_header_iff}
use ethlambda.Stf.Blocks.Valid.{IsValid}
use ethlambda.Stf.Blocks.Transition.{Applied, state_transition_ok, state_transition-eq-ok}
use ethlambda.Stf.Genesis.{start, grow, Chain-IsValid}

-- Hashes that tell the slots apart.
abbrev pub roots : Roots list_ssz
roots = record {
  state_hash = λ s. 100 + s.slot;
  header_hash = λ h. 200 + h.slot;
  block_hash = λ b. 200 + b.slot;
  body_hash = λ b. 300 + length b.attestations;
  attestation_data_hash = λ d. 400 + d.slot;
}

abbrev pub registry : List Validator
registry =
    record { pubkey = []; index = 0 }
    ∷ record { pubkey = []; index = 1 }
    ∷ record { pubkey = []; index = 2 }
    ∷ []

-- after the block of slot 1
abbrev pub anchor : Checkpoint
anchor = record { root = 200; slot = 0 }

abbrev pub first_header : BlockHeader
first_header = record {
  slot = 1;
  proposer_index = 1;
  parent_root = 200;
  state_root = 0;
  body_root = 300;
}

abbrev pub first : State list_ssz
first = record {
  config = record { genesis_time = 5 };
  slot = 1;
  latest_block_header = first_header;
  latest_justified = anchor;
  latest_finalized = anchor;
  historical_block_hashes = 200 ∷ [];
  justified_slots = [];
  validators = registry;
  justifications_roots = [];
  justifications_validators = [];
}

pub first-IsValid : IsValid list_ssz first
first-IsValid = record {
  consistent = record {
    history = refl;
    window = refl;
    finalized_past = omega arith;
    in_limit = omega arith;
  };
  nonzero = refl;
  table = refl;
  registry = omega arith;
}

-- All three validators vote for the first block.
abbrev pub vote : AggregatedAttestation list_ssz
vote = record {
  aggregation_bits = true ∷ true ∷ true ∷ [];
  attestation_data = record {
    slot = 1;
    head = record { root = 201; slot = 1 };
    target = record { root = 201; slot = 1 };
    source = anchor;
  };
}

abbrev pub second_block : Block list_ssz
second_block = record {
  slot = 2;
  proposer_index = 2;
  parent_root = 201;
  state_root = 102;
  body = record { attestations = vote ∷ [] };
}

abbrev advanced : State list_ssz
advanced = record first { slot = 2; latest_block_header = record first_header { state_root = 101 } }

-- The first block is justified by the votes, and the anchor is finalized again.
abbrev pub second : State list_ssz
second = record advanced {
  latest_block_header = record {
    slot = 2;
    proposer_index = 2;
    parent_root = 201;
    state_root = 0;
    body_root = 301;
  };
  latest_justified = record { root = 201; slot = 1 };
  historical_block_hashes = 200 ∷ 201 ∷ [];
  justified_slots = true ∷ [];
}

pub second_run : state_transition list_ssz roots first second_block ≡ ok second
unfolding state_transition process_slots cache_state_root process_block process_block_header
    process_attestations load_tally root_slots process_each process_attestation is_valid_vote
    is_slot_justified relative_index slot_is_justifiable_after mark_votes justify set_justified
    checkpoint_exists try_finalize justifiable_between range_from is_unfinalized shift_window
    serialize_justifications write_bits flat_votes sort insert_sorted load_votes latest_slots
    extend_to_slot lookup insert remove retain
second_run = refl

advanced-Extends :
    Extends list_ssz roots
      (record (cache_state_root list_ssz roots first) { slot = 2 })
      second_block
unfolding cache_state_root
advanced-Extends = record {
  at_slot = refl;
  after_parent = omega arith;
  has_validators = omega arith;
  by_proposer = refl;
  on_parent = refl;
}

state_transition-eq-ok_example :
    (first.slot < 2)
    × (102 ≡ roots.state_hash second)
    × Applied list_ssz roots list_ssz-SszLaws first second_block second
    × Extends list_ssz roots
        (record (cache_state_root list_ssz roots first) { slot = 2 })
        second_block
    × (2 ≤ historical_roots_limit)
state_transition-eq-ok_example =
    state_transition-eq-ok list_ssz roots list_ssz-SszLaws first second second_block first-IsValid
      (omega arith) second_run

state_transition_ok_example :
    (post : State list_ssz) × (state_transition list_ssz roots first second_block ≡ (
      if second_block.state_root == roots.state_hash post
      then ok post
      else err (state_root_mismatch second_block.state_root (roots.state_hash post))))
    × Applied list_ssz roots list_ssz-SszLaws first second_block post
state_transition_ok_example =
    state_transition_ok list_ssz roots list_ssz-SszLaws first second_block first-IsValid
      (omega arith) advanced-Extends (omega arith) (omega arith)

Chain-IsValid_example :
    IsValid list_ssz second × (first.latest_finalized.slot ≤ second.latest_finalized.slot)
Chain-IsValid_example =
    Chain-IsValid list_ssz roots list_ssz-SszLaws first-IsValid (grow second_block start second_run)
      (tt, omega arith)

process_slots-eq-loop_example :
    process_slots list_ssz roots first 4
    ≡ (if ltb 1 4 then ok (advance_slots list_ssz roots 3 first) else err (state_slot_is_newer 4 1))
process_slots-eq-loop_example = process_slots-eq-loop list_ssz roots first 4 (λ h. omega arith)

process_block_header_iff_example :
    (((s' : State list_ssz) × (process_block_header list_ssz roots advanced second_block ≡ ok s'))
      ↔ (Extends list_ssz roots advanced second_block × (2 ≤ historical_roots_limit)))
    × (((s' : State list_ssz) × (process_block_header list_ssz roots advanced second_block ≡ ok s')
          × Updated list_ssz roots list_ssz-SszLaws advanced second_block s')
        ↔ (Extends list_ssz roots advanced second_block × (2 ≤ historical_roots_limit)))
process_block_header_iff_example =
    process_block_header_iff list_ssz roots list_ssz-SszLaws advanced second_block (record {
      history = refl;
      window = refl;
      finalized_past = omega arith;
      in_limit = omega arith;
    })

-- the tally of the second block before its votes
abbrev counting : Tally list_ssz
counting = record {
  state = record second { latest_justified = anchor; justified_slots = false ∷ [] };
  justifications = [];
}

counting-IsSound : IsSound list_ssz counting
unfolding lookup
counting-IsSound = record {
  consistent = record {
    history = refl;
    window = refl;
    finalized_past = omega arith;
    in_limit = omega arith;
  };
  rows = record { row = λ root v h. absurd cc };
  nonzero = refl;
}

process_attestation_ok_example :
    (t : Tally list_ssz) × (process_attestation list_ssz ((201, 1) ∷ []) counting vote ≡ ok t)
    × Turned list_ssz list_ssz-SszLaws ((201, 1) ∷ []) counting vote t
process_attestation_ok_example =
    process_attestation_ok list_ssz list_ssz-SszLaws ((201, 1) ∷ []) counting vote counting-IsSound

-- Two rows, in no order.
abbrev mixed : Tally list_ssz
mixed = record counting {
  justifications = (203, true ∷ false ∷ false ∷ []) ∷ (202, false ∷ true ∷ true ∷ []) ∷ [];
}

mixed-Rows : Rows 3 mixed.justifications
unfolding lookup
mixed-Rows = record { row = λ root v h. ground (arith, h) }

serialize_justifications_lem_example :
    (bits : List Bool) × (serialize_justifications list_ssz mixed
      ≡ ok (record (mixed.state) {
        justifications_roots = sort (203 ∷ 202 ∷ []);
        justifications_validators = bits;
      }))
    × (length bits ≡ 6)
    × ((root : H256)
        → lookup root (load_votes 3 bits 0 (sort (203 ∷ 202 ∷ [])) [])
          ≡ lookup root mixed.justifications)
serialize_justifications_lem_example =
    serialize_justifications_lem list_ssz list_ssz-SszLaws mixed mixed-Rows (omega arith)
      (omega arith)

justifiable_iff_rule_example :
    (slot_is_justifiable_after 26 6 ≡ true) ↔ ((6 ≤ 26) × MayJustify (26 - 6))
justifiable_iff_rule_example = justifiable_iff_rule 26 6 (omega arith)

far_pronic_rejected_example :
    MayJustify (4611686020574871552 - 0) × (slot_is_justifiable_after 4611686020574871552 0 ≡ false)
far_pronic_rejected_example =
    far_pronic_rejected 4611686020574871552 0 2147483648 (omega arith) (omega arith)

-- the bits of slots 8, 9 and 10
abbrev window : List Bool
window = true ∷ false ∷ true ∷ []

shift_window_lem_example :
    (b' : List Bool) × (shift_window list_ssz {E = Error} window (9 - 7) ≡ ok b')
    × (length b' ≡ 3 - (9 - 7))
    × ((u : ℕ) → 9 < u → is_slot_justified list_ssz b' 9 u ≡ is_slot_justified list_ssz window 7 u)
shift_window_lem_example =
    shift_window_lem list_ssz list_ssz-SszLaws window 7 9 (omega arith) (omega arith)
