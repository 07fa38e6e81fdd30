-- ===== src/Stf/Blocks/Slots.antt =====
-- `process_slots` jumps to the target slot; the specification that its comment names goes slot by
-- slot. The two agree.
use ethlambda.Base.{
  ℕ, zero, suc, ◌+◌, ◌-◌, ◌<◌, ◌≡◌, ◌≢◌, ap, ◌∙◌, arith, ltb, nat_eq, if◌then◌else◌, ok, err,
  Bool-cases, inl, inr,
}
use ethlambda.Ssz.{Ssz}
use ethlambda.Types.{zero_hash, State, Roots}
use ethlambda.Stf.Error.{state_slot_is_newer}
use ethlambda.Stf.Blocks.{cache_state_root, process_slots}

module _ (S : Ssz) (R : Roots S) where
  open R use {state_hash}

  -- One turn of the specification's loop.
  unfoldable pub advance_slot : State S → State S
  unfolding cache_state_root
  advance_slot state = record (cache_state_root S R state) { slot = state.slot + 1 }

  -- `while state.slot < target_slot`, for `n` turns
  unfoldable pub advance_slots : ℕ → State S → State S
  advance_slots zero state = state
  advance_slots (suc n) state = advance_slots n (advance_slot state)

  advance_cached :
      (state : State S)
      → state.latest_block_header.state_root ≢ zero_hash
      → advance_slot state ≡ record state { slot = state.slot + 1 }
  unfolding advance_slot
  advance_cached state h = ground arith

  advance_slots_cached :
      (n target : ℕ) (state : State S)
      → state.slot + n ≡ target
      → state.latest_block_header.state_root ≢ zero_hash
      → advance_slots n state ≡ record state { slot = target }
  unfolding advance_slots
  advance_slots_cached zero target state e h =
      let q : state.slot ≡ target = omega arith in λ i. record state { slot = q i }
  advance_slots_cached (suc n) target state e h =
      ap (advance_slots n) (advance_cached state h)
      ∙ advance_slots_cached n target (record state { slot = state.slot + 1 }) (omega arith) h

  cache_is_set :
      (state : State S)
      → state_hash state ≢ zero_hash
      → (cache_state_root S R state).latest_block_header.state_root ≢ zero_hash
  unfolding cache_state_root
  cache_is_set state h = ground arith

  slot-cache_state_root : (state : State S) → (cache_state_root S R state).slot ≡ state.slot
  unfolding cache_state_root
  slot-cache_state_root state = ground arith

  loop_lem :
      (n target : ℕ) (state : State S)
      → state.slot + suc n ≡ target
      → state_hash state ≢ zero_hash
      → advance_slots (suc n) state ≡ record (cache_state_root S R state) { slot = target }
  unfolding advance_slots advance_slot
  loop_lem n target state e h =
      advance_slots_cached n target (advance_slot state) (omega arith) (cache_is_set state h)

  jump_lem :
      (target : ℕ) (state : State S)
      → state.slot < target
      → process_slots S R state target ≡ ok (record (cache_state_root S R state) { slot = target })
  unfolding process_slots
  jump_lem target state h = ground arith

  -- For a target in the future, and a state whose hash is not zero, the jump of `process_slots`
  -- gives the state of the specification's loop; for any other target it is refused.
  pub process_slots-eq-loop :
      (state : State S) (target : ℕ)
      → state_hash state ≢ zero_hash
      → process_slots S R state target ≡ (
          if ltb state.slot target
          then ok (advance_slots (target - state.slot) state)
          else err (state_slot_is_newer target state.slot))
  unfolding process_slots
  process_slots-eq-loop state target h = elim (Bool-cases (ltb state.slot target)) [
    | inl future ↦
        let gap = target - state.slot - 1 in
        let turns : target - state.slot ≡ suc gap = ground arith in
        let loop = loop_lem gap target state (ground arith) h in
        ground (arith, jump_lem target state, ap (λ n. advance_slots n state) turns, loop)
    | inr past ↦ ground arith
  ]
