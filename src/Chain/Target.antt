-- ===== src/Chain/Target.antt =====
-- `get_attestation_target` and `produce_attestation_data` of crates/blockchain/src/store.rs. `panic`
-- is the `expect` on a missing block; the second walk has fuel, and `none` means that it ran out.
pub mod Justifiable
use ethlambda.Base.{
  ℕ, zero, suc, ◌+◌, Bool, not, ◌&&◌, Option, none, some, ltb, leb, ◌==◌, nat_eq, if◌then◌else◌,
  Outcome, ok, err, panic, expect, ◌>>=◌,
}
use ethlambda.Ssz.{Ssz}
use ethlambda.Types.{H256, BlockHeader, Checkpoint, AttestationData}
use ethlambda.Stf.Justifiable.{slot_is_justifiable_after}
use ethlambda.Storage.Store.{Store, get_block_header, head_slot, safe_target_slot}

abbrev pub justification_lookback_slots : ℕ
justification_lookback_slots = 3

-- The only error of the model: the fuel ran out.
pub data OutOfFuel : Type 0 where
  out_of_fuel : OutOfFuel

module _ (S : Ssz) (store : Store S) where
  abbrev pub Target : Type 0
  Target = H256 × BlockHeader

  -- `expect("parent block exists")`
  unfoldable pub parent_of : BlockHeader → Outcome OutOfFuel Target
  parent_of h = do p ← expect (get_block_header S store h.parent_root); ok (h.parent_root, p)

  -- up to `steps` blocks back, as long as the block is above the safe target
  unfoldable pub walk_to_safe : ℕ → ℕ → Target → Outcome OutOfFuel Target
  unfolding parent_of
  walk_to_safe zero safe_slot t = ok t
  walk_to_safe (suc steps) safe_slot t =
      if ltb safe_slot t.1.slot
      then (parent_of t.1 >>= λ p. walk_to_safe steps safe_slot p)
      else ok t

  unfoldable pub walk_to_justifiable : ℕ → ℕ → Target → Outcome OutOfFuel Target
  unfolding parent_of
  walk_to_justifiable zero finalized_slot t = err out_of_fuel
  walk_to_justifiable (suc fuel) finalized_slot t =
      if ltb finalized_slot t.1.slot && not (slot_is_justifiable_after t.1.slot finalized_slot)
      then (parent_of t.1 >>= λ p. walk_to_justifiable fuel finalized_slot p)
      else ok t

  -- The target is not behind the justified checkpoint.
  unfoldable pub clamp : Target → Checkpoint
  clamp (root, h) =
      if ltb h.slot store.metadata.latest_justified.slot
      then store.metadata.latest_justified
      else record { root = root; slot = h.slot }

  unfoldable pub get_attestation_target : ℕ → Outcome OutOfFuel Checkpoint
  unfolding walk_to_safe walk_to_justifiable clamp
  get_attestation_target fuel = do
    let root = store.metadata.head
    head ← expect (get_block_header S store root)
    safe_slot ← expect (safe_target_slot S store)
    near ← walk_to_safe justification_lookback_slots safe_slot (root, head)
    target ← walk_to_justifiable fuel store.metadata.latest_finalized.slot near
    ok (clamp target)

  unfoldable pub produce_attestation_data : ℕ → ℕ → Outcome OutOfFuel AttestationData
  unfolding get_attestation_target
  produce_attestation_data fuel slot = do
    h ← expect (head_slot S store)
    target ← get_attestation_target fuel
    ok (record {
      slot = slot;
      head = record { root = store.metadata.head; slot = h };
      target = target;
      source = store.metadata.latest_justified;
    })
