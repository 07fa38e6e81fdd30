-- ===== src/Stf/Blocks.antt =====
-- crates/blockchain/state_transition/src/lib.rs: the slots, the header and the whole block. A
-- failed transition leaves a state that every caller drops, so only the state of a success is
-- returned. Metrics are left out.
pub mod Slots
pub mod Header
pub mod Valid
pub mod Transition
use ethlambda.Base.{
  ℕ, zero, ◌+◌, ◌-◌, ◌%◌, Bool, not, Option, none, some, List, [], ◌∷◌, ◌++◌, length, replicate,
  ltb, leb, ◌==◌, nat_eq, if◌then◌else◌, Outcome, ok, err, ensure, ok_or, ◌>>=◌, ◌>>◌,
}
use ethlambda.Ssz.{Ssz}
use ethlambda.Types.{
  H256, zero_hash, historical_roots_limit, BlockHeader, Checkpoint, Block, State, Roots,
}
use ethlambda.Stf.Error.{
  Error, state_slot_is_newer, slot_mismatch, parent_slot_is_newer, invalid_proposer, invalid_parent,
  no_validators, state_root_mismatch, slot_gap_too_large,
}
use ethlambda.Stf.JustifiedSlots.{extend_to_slot}
use ethlambda.Stf.Attestations.{process_attestations}

unfoldable pub current_proposer : ℕ → ℕ → Option ℕ
current_proposer slot num_validators =
    if ltb 0 num_validators then some (slot % num_validators) else none

unfoldable pub is_proposer : ℕ → ℕ → ℕ → Bool
unfolding current_proposer
is_proposer validator_index slot num_validators = elim (current_proposer slot num_validators) [
  | none ↦ Bool.false
  | some p ↦ p == validator_index
]

module _ (S : Ssz) (R : Roots S) where
  open R use {state_hash, header_hash, body_hash}

  -- The state root is cached in the header if it is not there yet.
  unfoldable pub cache_state_root : State S → State S
  cache_state_root state =
      if state.latest_block_header.state_root == zero_hash
      then record state {
        latest_block_header = record (state.latest_block_header) { state_root = state_hash state };
      }
      else state

  unfoldable pub process_slots : State S → ℕ → Outcome Error (State S)
  unfolding cache_state_root
  process_slots state target_slot =
      if leb target_slot state.slot
      then err (state_slot_is_newer target_slot state.slot)
      else ok (record (cache_state_root state) { slot = target_slot })

  -- The checks of `process_block_header` before any update, and the root of the parent header.
  unfoldable pub validate_header : State S → Block S → Outcome Error H256
  unfolding current_proposer
  validate_header state block = do
    let parent_header = state.latest_block_header
    ensure (block.slot == state.slot) (slot_mismatch state.slot block.slot)
    ensure (not (leb block.slot parent_header.slot))
        (parent_slot_is_newer parent_header.slot block.slot)
    expected_proposer ← ok_or (current_proposer block.slot (length state.validators)) no_validators
    ensure (block.proposer_index == expected_proposer)
        (invalid_proposer expected_proposer block.proposer_index)
    let parent_root = header_hash parent_header
    ensure (block.parent_root == parent_root) (invalid_parent parent_root block.parent_root)
    ok parent_root

  -- the first block after genesis
  unfoldable pub anchor_genesis : State S → H256 → State S
  anchor_genesis state parent_root =
      if state.latest_block_header.slot == 0
      then record state {
        latest_justified = record (state.latest_justified) { root = parent_root };
        latest_finalized = record (state.latest_finalized) { root = parent_root };
      }
      else state

  unfoldable pub new_header : Block S → BlockHeader
  new_header block = record {
    slot = block.slot;
    proposer_index = block.proposer_index;
    parent_root = block.parent_root;
    state_root = zero_hash;
    body_root = body_hash block.body;
  }

  -- The updates of `process_block_header`, from the guard on the slot gap on.
  unfoldable pub update_history : State S → Block S → H256 → Outcome Error (State S)
  unfolding anchor_genesis new_header
  update_history state block parent_root = do
    let num_empty_slots = block.slot - state.latest_block_header.slot - 1
    let current_len = length state.historical_block_hashes
    ensure (leb (current_len + 1 + num_empty_slots) historical_roots_limit)
        (slot_gap_too_large num_empty_slots current_len historical_roots_limit)
    let anchored = anchor_genesis state parent_root
    slots ←
        extend_to_slot S anchored.justified_slots anchored.latest_finalized.slot (block.slot - 1)
    ok (record anchored {
      historical_block_hashes =
          state.historical_block_hashes ++ (parent_root ∷ replicate num_empty_slots zero_hash);
      justified_slots = slots;
      latest_block_header = new_header block;
    })

  unfoldable pub process_block_header : State S → Block S → Outcome Error (State S)
  unfolding validate_header update_history
  process_block_header state block = do
    parent_root ← validate_header state block
    update_history state block parent_root

  unfoldable pub process_block : State S → Block S → Outcome Error (State S)
  process_block state block = do
    state' ← process_block_header state block
    process_attestations S state' block.body.attestations

  unfoldable pub state_transition : State S → Block S → Outcome Error (State S)
  state_transition state block = do
    advanced ← process_slots state block.slot
    post ← process_block advanced block
    ensure (block.state_root == state_hash post)
        (state_root_mismatch block.state_root (state_hash post))
    ok post
