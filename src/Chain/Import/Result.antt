-- ===== src/Chain/Import/Result.antt =====
-- What the import of a block does, by what it returns.
use ethlambda.Base.{
  ℕ, ◌≤◌, ◌≡◌, ◌⊎◌, refl, ◌∙◌, Bool, true, false, none, some, List, nat_eq, arith, Outcome, ok, err,
  panic, Bool-cases, Option-cases, Outcome-cases, inl, inr,
}
use ethlambda.Ssz.{Ssz}
use ethlambda.Types.{SignedBlockWithAttestation, State, Roots}
use ethlambda.Xmss.{Xmss}
use ethlambda.Stf.Error
use ethlambda.Stf.Blocks.{state_transition}
use ethlambda.Storage.Store.{Store, has_state, get_state}
use ethlambda.Storage.Init.{with_state_root}
use ethlambda.Chain.Error.{StoreError, map_err, state_transition_failed}
use ethlambda.Chain.Verify.{verify_signatures}
use ethlambda.Chain.Verify.Verified.{verify_signatures_iff}
use ethlambda.Chain.Head.{update_head}
use ethlambda.Chain.Gossip.{in_our_subnet}
use ethlambda.Chain.Import.{
  check_block, record_block, keep_proposer_vote, import_block, on_block_core, on_block,
}
use ethlambda.Chain.Import.Frame.{
  same_blocks, Kept, Kept-trans, update_head-Kept, keep_proposer_vote-Kept, Recorded,
  record_block-Recorded,
}

module _ (S : Ssz) (R : Roots S) (X : Xmss) where
  open R use {block_hash}

  -- A new block passed the tests: on the state of its parent, and to the state it leads to.
  pub record Passed (store : Store S) (b : SignedBlockWithAttestation S) (verify : Bool)
      (post : State S) : Type 0 where
    pub fresh : has_state S store (block_hash b.message.block) ≡ false
    pub parent : State S
    pub found : get_state S store b.message.block.parent_root ≡ some parent
    pub signed : verify ≡ true → verify_signatures S R X parent b ≡ ok tt
    pub result : State S
    pub ran : state_transition S R parent b.message.block ≡ ok result
    pub cached : with_state_root S R result b.message.block.state_root ≡ post

  map_err-eq-ok :
      (o : Outcome Error.Error (State S)) (post : State S)
      → map_err state_transition_failed o ≡ ok post
      → o ≡ ok post
  map_err-eq-ok (ok a) post h = cc
  map_err-eq-ok (err e) post h = cc
  map_err-eq-ok panic post h = cc

  check_block-Passed :
      (store : Store S) (b : SignedBlockWithAttestation S) (verify : Bool) (post : State S)
      → check_block S R X store b verify ≡ ok (some post)
      → Passed store b verify post
  unfolding check_block
  check_block-Passed store b verify post h =
      let block = b.message.block in
      let known = Bool-cases (has_state S store (block_hash block)) in
      let checked = Bool-cases verify in
      elim (Option-cases (get_state S store block.parent_root)) [
        | inl missing ↦ absurd (ground (arith, known, missing, h))
        | inr (parent, found) ↦
            let signed = Outcome-cases (verify_signatures S R X parent b) in
            elim (Outcome-cases (state_transition S R parent block)) [
              | inl (result, ran) ↦ record {
                fresh = ground (arith, known, found, h);
                parent = parent;
                found = found;
                signed = λ v. ground (arith, known, found, signed, v, h);
                result = result;
                ran = ran;
                cached = ground (arith, known, checked, found, signed, ran, h);
              }
              | inr other ↦ absurd (ground (arith, known, checked, found, signed, other, h))
            ]
      ]

  check_block-known :
      (store : Store S) (b : SignedBlockWithAttestation S) (verify : Bool)
      → check_block S R X store b verify ≡ ok none
      → has_state S store (block_hash b.message.block) ≡ true
  unfolding check_block
  check_block-known store b verify h =
      elim (Bool-cases (has_state S store (block_hash b.message.block))) [
        | inl known ↦ known
        | inr fresh ↦ elim (Option-cases (get_state S store b.message.block.parent_root)) [
          | inl missing ↦ absurd (ground (arith, fresh, missing, h))
          | inr (parent, found) ↦
              let signed = Outcome-cases (verify_signatures S R X parent b) in
              let ran = Outcome-cases (state_transition S R parent b.message.block) in
              let checked = Bool-cases verify in
              absurd (ground (arith, fresh, found, checked, signed, ran, h))
        ]
      ]

  -- What an import leaves behind, however it ends; it ends well without a change only for a block
  -- whose state is there.
  abbrev pub Left :
      Store S
      → Store S × Outcome StoreError (Unit {0})
      → SignedBlockWithAttestation S
      → Bool
      → Type 0
  Left store result b verify =
      ((result.0 ≡ store)
        × (result.1 ≡ ok tt → has_state S store (block_hash b.message.block) ≡ true))
      ⊎ ((post : State S) × Passed store b verify post × Recorded S R X store result.0 b post)

  Recorded-Kept :
      (store a c : Store S) (b : SignedBlockWithAttestation S) (post : State S)
      → Recorded S R X store a b post
      → Kept S a c
      → Recorded S R X store c b post
  Recorded-Kept store a c b post h k = record {
    states = k.3 ∙ h.states;
    blocks = λ r. same_blocks S R X a c r k.0 k.1 k.2 ∙ h.blocks r;
    justified = k.4 ∙ h.justified;
    finalized = k.5 ∙ h.finalized;
    time = k.6 ∙ h.time;
  }

  import_block-Recorded :
      (fuel : ℕ) (store : Store S) (b : SignedBlockWithAttestation S) (verify : Bool) (ids : List ℕ)
      (post : State S)
      → Recorded S R X store (import_block S R X fuel store b verify ids post).0 b post
  unfolding import_block
  import_block-Recorded fuel store b verify ids post =
      let recorded = record_block S R X store b post in
      let first = record_block-Recorded S R X store b post in
      elim (Option-cases (update_head S fuel recorded)) [
        | inl failed ↦ rw (failed, import_block) first
        | inr (updated, ran) ↦
            rw (ran, import_block)
              (Recorded-Kept store recorded (keep_proposer_vote S R X updated b verify ids).0 b post
                first
                (Kept-trans S recorded updated (keep_proposer_vote S R X updated b verify ids).0
                  (update_head-Kept S fuel recorded updated ran)
                  (keep_proposer_vote-Kept S R X updated b verify ids)))
      ]

  pub on_block_core-Left :
      (fuel : ℕ) (store : Store S) (b : SignedBlockWithAttestation S) (verify : Bool) (ids : List ℕ)
      → Left store (on_block_core S R X fuel store b verify ids) b verify
  unfolding on_block_core
  on_block_core-Left fuel store b verify ids =
      elim (Outcome-cases (check_block S R X store b verify)) [
        | inl (none, known) ↦
            rw (known, on_block_core) (inl (refl, (λ h. check_block-known store b verify known)))
        | inl (some post, passed) ↦
            rw (passed, on_block_core)
              (inr (
                post,
                check_block-Passed store b verify post passed,
                import_block-Recorded fuel store b verify ids post,
              ))
        | inr (inl (e, failed)) ↦ rw (failed, on_block_core) (inl (refl, (λ h. absurd cc)))
        | inr (inr failed) ↦ rw (failed, on_block_core) (inl (refl, (λ h. absurd cc)))
      ]

  -- The checkpoints of a store never move back by the import of a block, however it ends, with the
  -- signatures verified or not: each is as it was, or that of the state after the block, at a later
  -- slot. The time of the store stays.
  pub on_block_core-checkpoints :
      (fuel : ℕ) (store : Store S) (b : SignedBlockWithAttestation S) (verify : Bool) (ids : List ℕ)
      → let store' = (on_block_core S R X fuel store b verify ids).0 in
        (store.metadata.latest_justified.slot ≤ store'.metadata.latest_justified.slot)
        × (store.metadata.latest_finalized.slot ≤ store'.metadata.latest_finalized.slot)
        × (store'.metadata.time ≡ store.metadata.time)
  on_block_core-checkpoints fuel store b verify ids =
      elim (on_block_core-Left fuel store b verify ids) [
        | inl (same, known) ↦ rw same (omega arith, omega arith, refl)
        | inr (post, passed, r) ↦ (ground (arith, r.justified), ground (arith, r.finalized), r.time)
      ]

  check_block-signed :
      (store : Store S) (b : SignedBlockWithAttestation S) (post : State S)
      → Passed store b true post
      → (signature : X.Signature) × (X.signature_from_bytes b.signature.proposer_signature
          ≡ some signature)
  check_block-signed store b post p =
      let proposed = ((verify_signatures_iff S R X p.parent b).0 (p.signed refl)).1 in
      (proposed.signature, proposed.signed)

  -- A block that is imported with an error leaves the store as it was: the proposer's signature, the
  -- only test after the updates, has been decoded before.
  pub on_block-err :
      (fuel : ℕ) (store : Store S) (b : SignedBlockWithAttestation S) (ids : List ℕ)
      (e : StoreError)
      → (on_block S R X fuel store b ids).1 ≡ err e
      → (on_block S R X fuel store b ids).0 ≡ store
  unfolding on_block on_block_core import_block keep_proposer_vote
  on_block-err fuel store b ids e h = elim (Outcome-cases (check_block S R X store b true)) [
    | inl (none, known) ↦ absurd (ground (arith, known, h))
    | inl (some post, passed) ↦
        let (signature, decoded) =
          check_block-signed store b post (check_block-Passed store b true post passed) in
        let subnet = Bool-cases (in_our_subnet ids b.message.proposer_attestation.validator_id) in
        let updated = Option-cases (update_head S fuel (record_block S R X store b post)) in
        absurd (ground (arith, passed, decoded, subnet, updated, h))
    | inr (inl (e', failed)) ↦ rw (failed, on_block_core) refl
    | inr (inr failed) ↦ rw (failed, on_block_core) refl
  ]
