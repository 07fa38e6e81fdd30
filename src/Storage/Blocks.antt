-- ===== src/Storage/Blocks.antt =====
-- The blocks of crates/storage/src/store.rs, kept as header, body and signatures under one root,
-- and the conversions of crates/common/types/src/block.rs that this uses.
use ethlambda.Base.{not, Option, some, [], ◌==◌, nat_eq, pair_eq, if◌then◌else◌, lookup, insert}
use ethlambda.Ssz.{Ssz}
use ethlambda.Types.{
  H256, BlockHeader, Block, BlockBody, SignedBlockWithAttestation, BlockSignaturesWithAttestation,
  Roots,
}
use ethlambda.Storage.Store.{Tables, Store, and_then}

module _ (S : Ssz) (R : Roots S) where
  open R use {body_hash}

  unfoldable pub header : Block S → BlockHeader
  header block = record {
    slot = block.slot;
    proposer_index = block.proposer_index;
    parent_root = block.parent_root;
    state_root = block.state_root;
    body_root = body_hash block.body;
  }

  -- The assertion of a debug build is left out.
  unfoldable pub from_header_and_body : BlockHeader → BlockBody S → Block S
  from_header_and_body h body = record {
    slot = h.slot;
    proposer_index = h.proposer_index;
    parent_root = h.parent_root;
    state_root = h.state_root;
    body = body;
  }

  unfoldable pub to_signed_block :
      BlockSignaturesWithAttestation S → Block S → SignedBlockWithAttestation S
  to_signed_block signatures block = record {
    message = record { block = block; proposer_attestation = signatures.proposer_attestation };
    signature = signatures.signatures;
  }

  -- `BlockBody::default()`
  abbrev pub empty_body : BlockBody S
  empty_body = record { attestations = [] }

  unfoldable pub empty_body_root : H256
  empty_body_root = body_hash empty_body

  unfoldable pub write_signed_block : Tables S → H256 → SignedBlockWithAttestation S → Tables S
  unfolding header empty_body_root
  write_signed_block tables root signed_block =
      let block = signed_block.message.block in
      let h = header block in
      record tables {
        block_headers = insert root h tables.block_headers;
        block_bodies =
            if not (h.body_root == empty_body_root)
            then insert root block.body tables.block_bodies
            else tables.block_bodies;
        block_signatures =
            insert root
              (record {
                proposer_attestation = signed_block.message.proposer_attestation;
                signatures = signed_block.signature;
              })
              tables.block_signatures;
      }

  unfoldable pub insert_pending_block : Store S → H256 → SignedBlockWithAttestation S → Store S
  unfolding write_signed_block
  insert_pending_block store root signed_block = record store {
    tables = write_signed_block store.tables root signed_block;
  }

  unfoldable pub insert_signed_block : Store S → H256 → SignedBlockWithAttestation S → Store S
  unfolding write_signed_block
  insert_signed_block store root signed_block =
      let block = signed_block.message.block in
      let tables = write_signed_block store.tables root signed_block in
      record store {
        tables = record tables {
          live_chain = insert (block.slot, root) block.parent_root tables.live_chain;
        };
      }

  unfoldable pub get_signed_block : Store S → H256 → Option (SignedBlockWithAttestation S)
  unfolding empty_body_root from_header_and_body to_signed_block
  get_signed_block store root = and_then (lookup root store.tables.block_headers) (λ h.
      and_then (lookup root store.tables.block_signatures) (λ signatures.
        and_then
          (if h.body_root == empty_body_root
            then some empty_body
            else lookup root store.tables.block_bodies)
          (λ body. some (to_signed_block signatures (from_header_and_body h body)))))
