-- ===== src/Chain/Head.antt =====
-- `update_head`, `update_safe_target`, `accept_new_attestations` and `reorg_depth` of
-- crates/blockchain/src/store.rs. Fuel is that of the fork choice.
pub mod SafeTarget
use ethlambda.Base.{
  ℕ, zero, suc, ◌+◌, ◌*◌, ◌/◌, Bool, not, Option, none, some, List, ◌++◌, length, ltb, leb, ◌==◌,
  nat_eq, if◌then◌else◌,
}
use ethlambda.Ssz.{Ssz}
use ethlambda.Types.{H256}
use ethlambda.ForkChoice.{compute_lmd_ghost_head}
use ethlambda.Storage.Payloads.{SignatureKey, dedup_keys}
use ethlambda.Storage.Store.{
  Store, and_then, get_live_chain, get_block_header, head_state, set_safe_target,
  extract_latest_attestations, extract_latest_known_attestations, promote_new_aggregated_payloads,
}
use ethlambda.Storage.Prune.{head_only, update_checkpoints}

module _ (S : Ssz) where
  unfoldable pub update_head : ℕ → Store S → Option (Store S)
  update_head fuel store =
      and_then
        (compute_lmd_ghost_head fuel store.metadata.latest_justified.root (get_live_chain S store)
          (extract_latest_known_attestations S store) 0)
        (λ found. some (update_checkpoints S store (head_only found.0)))

  unfoldable pub accept_new_attestations : ℕ → Store S → Option (Store S)
  unfolding update_head
  accept_new_attestations fuel store = update_head fuel (promote_new_aggregated_payloads S store)

  -- two thirds of the validators, rounded up
  unfoldable pub min_target_score : ℕ → ℕ
  min_target_score num_validators = (num_validators * 2 + 2) / 3

  -- the keys of both buffers, each once
  unfoldable pub all_payload_keys : Store S → List SignatureKey
  all_payload_keys store =
      dedup_keys (store.known_payloads.entries ++ store.new_payloads.entries) ethlambda.Base.[]

  -- `none` also stands for the panic without a head state.
  unfoldable pub update_safe_target : ℕ → Store S → Option (Store S)
  unfolding min_target_score all_payload_keys
  update_safe_target fuel store = and_then (head_state S store) (λ state.
      and_then
        (compute_lmd_ghost_head fuel store.metadata.latest_justified.root (get_live_chain S store)
          (extract_latest_attestations S store (all_payload_keys store))
          (min_target_score (length state.validators)))
        (λ found. some (set_safe_target S store found.0)))

  abbrev pub max_reorg_depth : ℕ
  max_reorg_depth = 128

  -- The walk has `left` steps to `max_reorg_depth`, and `depth` steps behind it.
  unfoldable pub walk_reorg : ℕ → ℕ → Store S → H256 → ℕ → H256 → Option ℕ
  walk_reorg zero depth store current_root target_slot target_root = some depth
  walk_reorg (suc left) depth store current_root target_slot target_root =
      elim (get_block_header S store current_root) [
        | none ↦ none
        | some current_header ↦
            let rest =
              walk_reorg left (depth + 1) store current_header.parent_root target_slot
                target_root in
            if leb current_header.slot target_slot
            then (if current_root == target_root then none else some depth)
            else rest
      ]

  unfoldable pub reorg_depth : H256 → H256 → Store S → Option ℕ
  unfolding walk_reorg
  reorg_depth old_head new_head store =
      if new_head == old_head
      then none
      else and_then (get_block_header S store old_head) (λ old_header.
        and_then (get_block_header S store new_head) (λ new_header.
          if leb old_header.slot new_header.slot
          then walk_reorg max_reorg_depth 0 store new_head old_header.slot old_head
          else walk_reorg max_reorg_depth 0 store old_head new_header.slot new_head))
