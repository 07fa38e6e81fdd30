-- ===== src/Storage/RoundTrip.antt =====
-- A block that is stored comes back as it was: the tables of crates/storage/src/store.rs.
use ethlambda.Base.{
  ℕ, ◌≡◌, refl, some, ◌==◌, nat_eq, pair_eq, if◌then◌else◌, arith, lookup, lookup-insert,
  Bool-cases, inl, inr,
}
use ethlambda.Ssz.{Ssz}
use ethlambda.Types.{H256, BlockBody, SignedBlockWithAttestation, Roots}
use ethlambda.Storage.Store.{Store}
use ethlambda.Storage.Blocks.{
  empty_body, empty_body_root, header, from_header_and_body, to_signed_block, write_signed_block,
  insert_pending_block, insert_signed_block, get_signed_block,
}

module _ (S : Ssz) (R : Roots S) where
  abbrev pub NoCollision : BlockBody S → Type 0
  NoCollision body = R.body_hash body ≡ R.body_hash (empty_body S R) → body ≡ empty_body S R

  get_signed_block-write :
      (store : Store S) (root r : H256) (b : SignedBlockWithAttestation S)
      → NoCollision b.message.block.body
      → get_signed_block S R (insert_pending_block S R store root b) r
        ≡ (if root == r then some b else get_signed_block S R store r)
  unfolding insert_pending_block get_signed_block write_signed_block header empty_body_root
      from_header_and_body to_signed_block
  get_signed_block-write store root r b sound =
      let headers = lookup-insert root r (header S R b.message.block) store.tables.block_headers in
      let bodies = lookup-insert root r b.message.block.body store.tables.block_bodies in
      let signatures =
        lookup-insert root r
          (record {
            proposer_attestation = b.message.proposer_attestation;
            signatures = b.signature;
          })
          store.tables.block_signatures in
      elim (Bool-cases (root == r)) [
        | inl same ↦ rw same (ground (arith, headers, bodies, signatures))
        | inr other ↦ rw other (ground (arith, headers, bodies, signatures))
      ]

  -- A block whose body does not share the empty body's hash by a collision comes back under its root
  -- as it was stored, whether it was stored as pending or for good, and the blocks of all other
  -- roots are as before. Only a block stored for good enters the index of fork choice, under its
  -- slot and root.
  pub get_signed_block-insert :
      (store : Store S) (root r : H256) (b : SignedBlockWithAttestation S)
      → NoCollision b.message.block.body
      → (get_signed_block S R (insert_pending_block S R store root b) r
          ≡ (if root == r then some b else get_signed_block S R store r))
        × (get_signed_block S R (insert_signed_block S R store root b) r
            ≡ (if root == r then some b else get_signed_block S R store r))
        × ((insert_pending_block S R store root b).tables.live_chain ≡ store.tables.live_chain)
        × ((key : ℕ × H256)
            → lookup key (insert_signed_block S R store root b).tables.live_chain ≡ (
                if (b.message.block.slot, root) == key
                then some b.message.block.parent_root
                else lookup key store.tables.live_chain))
  unfolding insert_pending_block insert_signed_block get_signed_block write_signed_block
  get_signed_block-insert store root r b sound =
      let back = get_signed_block-write store root r b sound in
      (
        back,
        back,
        refl,
        (λ key.
            lookup-insert (b.message.block.slot, root) key b.message.block.parent_root
              store.tables.live_chain),
      )
