-- ===== src/Server.antt =====
-- BlockChainServer of crates/blockchain/src/lib.rs: the blocks that wait for a parent, and the cascade
-- that an import sets off. A panic also stands for the end of a loop's fuel. What the server tells
-- the network is an effect; the network is connected.
pub mod Duties
pub mod Checkpoints
pub mod Pending
mod Tests
use ethlambda.Base.{
  ℕ, zero, suc, Bool, true, false, Option, none, some, List, [], ◌∷◌, ◌++◌, any, ◌==◌, nat_eq,
  if◌then◌else◌, unwrap_or, Map, lookup, insert, remove, Outcome, ok, err, panic, expect, ◌>>=◌,
  ◌>>◌,
}
use ethlambda.Ssz.{Ssz}
use ethlambda.Types.{
  H256, SignedAttestation, SignedAggregatedAttestation, SignedBlockWithAttestation, Roots,
}
use ethlambda.Xmss.{Xmss}
use ethlambda.Storage.Store.{Store, has_state, get_block_header}
use ethlambda.Storage.Blocks.{insert_pending_block, get_signed_block}
use ethlambda.Storage.Prune.{prune_old_data}
use ethlambda.Chain.Error.{StoreError}
use ethlambda.Chain.Target.{OutOfFuel}
use ethlambda.Chain.Import
use ethlambda.Chain.Gossip
use ethlambda.KeyManager.{KeyManager, validator_ids}

-- `HashSet::insert`
abbrev pub add_root : H256 → List H256 → List H256
add_root r set = if any (λ x. x == r) set then set else set ++ (r ∷ [])

module _ (S : Ssz) (R : Roots S) (X : Xmss) where
  open R use {block_hash}

  pub record BlockChainServer : Type 0 where
    pub store : Store S
    pub key_manager : KeyManager S R X
    pub pending_blocks : Map H256 (List H256)
    pub pending_block_parents : Map H256 H256
    pub is_aggregator : Bool

  pub data Told : Type 0 where
    fetch_block : H256 → Told
    publish_block : SignedBlockWithAttestation S → Told
    publish_attestation : SignedAttestation → Told
    publish_aggregated_attestation : SignedAggregatedAttestation S → Told

  abbrev pub Block : Type 0
  Block = SignedBlockWithAttestation S

  -- The server, the queue of the cascade and what the network is told.
  abbrev pub Turn : Type 0
  Turn = BlockChainServer × List Block × List Told

  -- an import that panics takes the server down
  unfoldable pub process_block :
      ℕ
      → BlockChainServer
      → Block
      → Outcome OutOfFuel (BlockChainServer × Outcome StoreError (Unit {0}))
  process_block fuel server signed_block =
      let imported =
        Import.on_block S R X fuel server.store signed_block
          (validator_ids S R X server.key_manager) in
      elim imported.1 [
        | panic ↦ panic
        | ok t ↦ ok (record server { store = imported.0 }, ok tt)
        | err e ↦ ok (record server { store = imported.0 }, err e)
      ]

  unfoldable pub resolve_missing : ℕ → Map H256 H256 → H256 → Outcome OutOfFuel H256
  resolve_missing zero parents missing_root = panic
  resolve_missing (suc fuel) parents missing_root = elim (lookup missing_root parents) [
    | none ↦ ok missing_root
    | some ancestor ↦ resolve_missing fuel parents ancestor
  ]

  -- The block waits for its parent.
  unfoldable pub register_pending : BlockChainServer → H256 → H256 → H256 → BlockChainServer
  register_pending server block_root parent_root missing_root = record server {
    pending_blocks =
        insert parent_root
          (add_root block_root (unwrap_or (lookup parent_root server.pending_blocks) []))
          server.pending_blocks;
    pending_block_parents = insert block_root missing_root server.pending_block_parents;
  }

  -- Up through the stored headers: to a block whose parent has a state, which is queued, or to one
  -- that is missing, which is asked for.
  unfoldable pub walk_pending : ℕ → BlockChainServer → H256 → List Block → Outcome OutOfFuel Turn
  unfolding register_pending
  walk_pending zero server missing_root queue = panic
  walk_pending (suc fuel) server missing_root queue =
      elim (get_block_header S server.store missing_root) [
        | none ↦ ok (server, queue, fetch_block missing_root ∷ [])
        | some h ↦ elim (has_state S server.store h.parent_root) [
          | true ↦ expect (get_signed_block S R server.store missing_root) >>= λ block.
              ok (server, queue ++ (block ∷ []), [])
          | false ↦
              walk_pending fuel (register_pending server missing_root h.parent_root h.parent_root)
                h.parent_root queue
        ]
      ]

  unfoldable pub pend_block : ℕ → BlockChainServer → Block → List Block → Outcome OutOfFuel Turn
  unfolding resolve_missing walk_pending register_pending
  pend_block fuel server signed_block queue =
      let block = signed_block.message.block in
      let block_root = block_hash block in
      resolve_missing fuel server.pending_block_parents block.parent_root >>= λ missing_root.
      walk_pending fuel
        (register_pending
          (record server { store = insert_pending_block S R server.store block_root signed_block })
          block_root block.parent_root missing_root)
        missing_root queue

  unfoldable pub queue_children :
      BlockChainServer → List H256 → List Block → BlockChainServer × List Block
  queue_children server [] queue = (server, queue)
  queue_children server (block_root ∷ child_roots) queue =
      queue_children
        (record server { pending_block_parents = remove block_root server.pending_block_parents })
        child_roots
        (elim (get_signed_block S R server.store block_root) [
          | none ↦ queue
          | some child_block ↦ queue ++ (child_block ∷ [])
        ])

  unfoldable pub collect_pending_children :
      BlockChainServer → H256 → List Block → BlockChainServer × List Block
  unfolding queue_children
  collect_pending_children server parent_root queue =
      elim (lookup parent_root server.pending_blocks) [
        | none ↦ (server, queue)
        | some child_roots ↦
            queue_children
              (record server { pending_blocks = remove parent_root server.pending_blocks })
              child_roots queue
      ]

  unfoldable pub process_or_pend_block :
      ℕ → BlockChainServer → Block → List Block → Outcome OutOfFuel Turn
  unfolding process_block pend_block collect_pending_children
  process_or_pend_block fuel server signed_block queue =
      let block = signed_block.message.block in
      if has_state S server.store block.parent_root
      then (process_block fuel server signed_block >>= λ processed. elim processed.1 [
        | ok t ↦
            let collected = collect_pending_children processed.0 (block_hash block) queue in
            ok (collected.0, collected.1, [])
        | err e ↦ ok (processed.0, queue, [])
        | panic ↦ panic
      ])
      else pend_block fuel server signed_block queue

  -- The cascade: `turns` bounds the blocks that are taken from the queue.
  unfoldable pub run_cascade :
      ℕ → ℕ → BlockChainServer → List Block → Outcome OutOfFuel (BlockChainServer × List Told)
  unfolding process_or_pend_block
  run_cascade turns fuel server [] = ok (server, [])
  run_cascade zero fuel server (block ∷ queue) = panic
  run_cascade (suc turns) fuel server (block ∷ queue) =
      process_or_pend_block fuel server block queue >>= λ turn.
      run_cascade turns fuel turn.0 turn.1 >>= λ rest. ok (rest.0, turn.2 ++ rest.1)

  unfoldable pub on_block :
      ℕ → ℕ → BlockChainServer → Block → Outcome OutOfFuel (BlockChainServer × List Told)
  unfolding run_cascade
  on_block turns fuel server signed_block =
      run_cascade turns fuel server (signed_block ∷ []) >>= λ done.
      ok (record (done.0) { store = prune_old_data S done.0.store }, done.1)

  unfoldable pub on_gossip_attestation :
      BlockChainServer → SignedAttestation → Outcome OutOfFuel BlockChainServer
  on_gossip_attestation server attestation =
      if server.is_aggregator
      then (let received =
            Gossip.on_gossip_attestation S R X server.store attestation
              (validator_ids S R X server.key_manager) in
          elim received.1 [
            | panic ↦ panic
            | ok t ↦ ok (record server { store = received.0 })
            | err e ↦ ok (record server { store = received.0 })
          ])
      else ok server

  unfoldable pub on_gossip_aggregated_attestation :
      BlockChainServer → SignedAggregatedAttestation S → Outcome OutOfFuel BlockChainServer
  on_gossip_aggregated_attestation server attestation =
      let received = Gossip.on_gossip_aggregated_attestation S R X server.store attestation in
      elim received.1 [
        | panic ↦ panic
        | ok t ↦ ok (record server { store = received.0 })
        | err e ↦ ok (record server { store = received.0 })
      ]
