-- ===== src/Chain/Import/Frame.antt =====
-- What the import of a block writes to the store, update by update.
use ethlambda.Base.{
  ℕ, ◌≡◌, refl, ap, ◌∙◌, Bool, true, false, some, List, [], ◌∷◌, ◌++◌, ltb, nat_eq, if◌then◌else◌,
  arith, Bool-cases, Option-cases, Outcome-cases, inl, inr, insert,
}
use ethlambda.Ssz.{Ssz}
use ethlambda.Types.{H256, Checkpoint, AttestationData, SignedBlockWithAttestation, State, Roots}
use ethlambda.Xmss.{Xmss}
use ethlambda.ForkChoice.{compute_lmd_ghost_head}
use ethlambda.Storage.Store.{
  Store, get_live_chain, extract_latest_known_attestations, insert_attestation_data_by_root,
  insert_attestation_data_by_root_batch, insert_known_aggregated_payloads_batch,
  insert_new_aggregated_payload, insert_gossip_signature, insert_state,
}
use ethlambda.Storage.Prune.{update_checkpoints, prune_finalized}
use ethlambda.Storage.Blocks.{insert_signed_block, get_signed_block}
use ethlambda.Chain.Error.{StoreError}
use ethlambda.Chain.Head.{update_head}
use ethlambda.Chain.Aggregation.{aggregation_bits_from_validator_indices}
use ethlambda.Chain.Gossip.{in_our_subnet}
use ethlambda.Chain.Import.{advance_checkpoints, record_block, keep_proposer_vote, body_data}

-- The later of two checkpoints, the first where their slots are equal.
abbrev pub later : Checkpoint → Checkpoint → Checkpoint
later a b = if ltb a.slot b.slot then b else a

module _ (S : Ssz) where
  -- The second store has the blocks, states, checkpoints and time of the first.
  abbrev pub Kept : Store S → Store S → Type 0
  Kept a b =
      (b.tables.block_headers ≡ a.tables.block_headers)
      × (b.tables.block_bodies ≡ a.tables.block_bodies)
      × (b.tables.block_signatures ≡ a.tables.block_signatures)
      × (b.tables.states ≡ a.tables.states)
      × (b.metadata.latest_justified ≡ a.metadata.latest_justified)
      × (b.metadata.latest_finalized ≡ a.metadata.latest_finalized)
      × (b.metadata.time ≡ a.metadata.time)

  pub Kept-refl : (a : Store S) → Kept a a
  Kept-refl a = (refl, refl, refl, refl, refl, refl, refl)

  pub Kept-trans : (a b c : Store S) → Kept a b → Kept b c → Kept a c
  Kept-trans a b c h k =
      (k.0 ∙ h.0, k.1 ∙ h.1, k.2 ∙ h.2, k.3 ∙ h.3, k.4 ∙ h.4, k.5 ∙ h.5, k.6 ∙ h.6)

  pub attestation_data-Kept :
      (store : Store S) (entries : List (H256 × AttestationData))
      → Kept store (insert_attestation_data_by_root_batch S store entries)
  unfolding insert_attestation_data_by_root_batch insert_attestation_data_by_root
  attestation_data-Kept store [] = Kept-refl store
  attestation_data-Kept store ((root, d) ∷ entries) =
      attestation_data-Kept (insert_attestation_data_by_root S store root d) entries

  pub update_head-Kept :
      (fuel : ℕ) (store store' : Store S)
      → update_head S fuel store ≡ some store'
      → Kept store store'
  unfolding update_head update_checkpoints
  update_head-Kept fuel store store' h =
      elim (Option-cases (
        compute_lmd_ghost_head fuel store.metadata.latest_justified.root (get_live_chain S store)
          (extract_latest_known_attestations S store) 0)) [
            | inl failed ↦ cc (rw failed at h)
            | inr (found, ran) ↦ ground (arith, ran, h)
          ]

module _ (S : Ssz) (R : Roots S) (X : Xmss) where
  open R use {block_hash}

  pub keep_proposer_vote-Kept :
      (store : Store S) (b : SignedBlockWithAttestation S) (verify : Bool) (ids : List ℕ)
      → Kept S store (keep_proposer_vote S R X store b verify ids).0
  unfolding keep_proposer_vote insert_gossip_signature insert_new_aggregated_payload
  keep_proposer_vote-Kept store b true ids =
      let subnet = Bool-cases (in_our_subnet ids b.message.proposer_attestation.validator_id) in
      let decoded = Option-cases (X.signature_from_bytes b.signature.proposer_signature) in
      ground (arith, subnet, decoded)
  keep_proposer_vote-Kept store b false ids =
      let bits = Outcome-cases (
        aggregation_bits_from_validator_indices S {E = StoreError}
          (b.message.proposer_attestation.validator_id ∷ [])) in
      ground (arith, bits)

  -- The tables and checkpoints of a store to which a block and its state are added.
  pub record Recorded (store store' : Store S) (b : SignedBlockWithAttestation S) (post : State S)
      : Type 0 where
    pub states : store'.tables.states ≡ insert (block_hash b.message.block) post store.tables.states
    pub blocks :
        (r : H256)
        → get_signed_block S R store' r
          ≡ get_signed_block S R (insert_signed_block S R store (block_hash b.message.block) b) r
    pub justified :
        store'.metadata.latest_justified
        ≡ later store.metadata.latest_justified post.latest_justified
    pub finalized :
        store'.metadata.latest_finalized
        ≡ later store.metadata.latest_finalized post.latest_finalized
    pub time : store'.metadata.time ≡ store.metadata.time

  pub same_blocks :
      (a b : Store S) (r : H256)
      → b.tables.block_headers ≡ a.tables.block_headers
      → b.tables.block_bodies ≡ a.tables.block_bodies
      → b.tables.block_signatures ≡ a.tables.block_signatures
      → get_signed_block S R b r ≡ get_signed_block S R a r
  unfolding get_signed_block
  same_blocks a b r headers bodies signatures = rw (headers, bodies, signatures) refl

  -- the checkpoints of a store that sees a state
  advanced :
      (store : Store S) (post : State S)
      → let store' = advance_checkpoints S R X store post in
        (store'.tables.block_headers ≡ store.tables.block_headers)
        × (store'.tables.block_bodies ≡ store.tables.block_bodies)
        × (store'.tables.block_signatures ≡ store.tables.block_signatures)
        × (store'.tables.states ≡ store.tables.states)
        × (store'.metadata.latest_justified
            ≡ later store.metadata.latest_justified post.latest_justified)
        × (store'.metadata.latest_finalized
            ≡ later store.metadata.latest_finalized post.latest_finalized)
        × (store'.metadata.time ≡ store.metadata.time)
  unfolding advance_checkpoints update_checkpoints prune_finalized
  advanced store post =
      let justified =
        Bool-cases (ltb store.metadata.latest_justified.slot post.latest_justified.slot) in
      let finalized =
        Bool-cases (ltb store.metadata.latest_finalized.slot post.latest_finalized.slot) in
      ground (arith, justified, finalized)

  pub record_block-Recorded :
      (store : Store S) (b : SignedBlockWithAttestation S) (post : State S)
      → Recorded store (record_block S R X store b post) b post
  unfolding record_block insert_signed_block insert_state insert_known_aggregated_payloads_batch
  record_block-Recorded store b post =
      let attestations = b.message.block.body.attestations in
      let proofs = b.signature.attestation_signatures in
      let d = b.message.proposer_attestation.attestation_data in
      let root = block_hash b.message.block in
      let a = advance_checkpoints S R X store post in
      let (headers, bodies, signatures, states, justified, finalized, time) = advanced store post in
      let with_state = insert_state S (insert_signed_block S R a root b) root post in
      let k =
        attestation_data-Kept S with_state
          (body_data S R X attestations proofs ++ ((R.attestation_data_hash d, d) ∷ [])) in
      record {
        states = k.3 ∙ ap (insert root post) states;
        blocks = λ r.
            same_blocks (insert_signed_block S R store root b) (record_block S R X store b post) r
              (k.0 ∙ cc headers) (k.1 ∙ cc bodies) (k.2 ∙ cc signatures);
        justified = k.4 ∙ justified;
        finalized = k.5 ∙ finalized;
        time = k.6 ∙ time;
      }
