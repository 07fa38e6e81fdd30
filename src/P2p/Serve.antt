-- ===== src/P2p/Serve.antt =====
-- The requests that a node answers: `build_status`, `handle_status_request` and
-- `handle_blocks_by_root_request` of crates/net/p2p/src/req_resp/handlers.rs. The channel of the
-- answer is left out: a handler is the payload of the success that it sends.
use ethlambda.Base.{◌≤◌, arith, Option, none, some, List, [], ◌∷◌, length, Option-cases, inl, inr}
use ethlambda.Ssz.{Ssz}
use ethlambda.Types.{H256, SignedBlockWithAttestation, Checkpoint, Roots}
use ethlambda.Storage.Store.{Store, get_block_header, and_then}
use ethlambda.Storage.Blocks.{get_signed_block}

pub record Status : Type 0 where
  pub finalized : Checkpoint
  pub head : Checkpoint

data ResponsePayload (S : Ssz) : Type 0 where
  status : Status → ResponsePayload S
  blocks_by_root : List (SignedBlockWithAttestation S) → ResponsePayload S

module _ (S : Ssz) (R : Roots S) where
  -- `none` where the header of the head is missing, and the source panics.
  unfoldable build_status : Store S → Option Status
  build_status store = and_then (get_block_header S store store.metadata.head) (λ header.
      some (record {
        finalized = store.metadata.latest_finalized;
        head = record { root = store.metadata.head; slot = header.slot };
      }))

  unfoldable handle_status_request : Store S → Option (ResponsePayload S)
  unfolding build_status
  handle_status_request store = and_then (build_status store) (λ ours. some (status ours))

  unfoldable found_blocks : Store S → List H256 → List (SignedBlockWithAttestation S)
  found_blocks store [] = []
  found_blocks store (root ∷ roots) =
      let rest = found_blocks store roots in
      elim (get_signed_block S R store root) [
        | some signed_block ↦ signed_block ∷ rest
        | none ↦ rest
      ]

  unfoldable handle_blocks_by_root_request : Store S → List H256 → ResponsePayload S
  unfolding found_blocks
  handle_blocks_by_root_request store roots = blocks_by_root (found_blocks store roots)

  -- No answer is longer than its request.
  length-found_blocks :
      (store : Store S) (roots : List H256) → length (found_blocks store roots) ≤ length roots
  unfolding found_blocks
  length-found_blocks store [] = omega arith
  length-found_blocks store (root ∷ roots) =
      let rest = length-found_blocks store roots in
      elim (Option-cases (get_signed_block S R store root)) [
        | inl h ↦ ground (arith, h, rest)
        | inr h ↦ ground (arith, h, rest)
      ]
