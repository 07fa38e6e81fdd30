-- ===== src/Chain/Produce/Accepted.antt =====
-- A block that the node produces passes the tests of its own import.
use ethlambda.Base.{
  ℕ, ◌≡◌, ◌⊎◌, refl, ap, sym, ◌∙◌, ◌>>=◌, true, false, Option, none, some, List, length, arith,
  Outcome, ok, err, panic, Bool-cases, Option-cases, inl, inr, >>=-eq-ok,
}
use ethlambda.Ssz.{Ssz}
use ethlambda.Types.{
  H256, AggregatedSignatureProof, Block, SignedBlockWithAttestation, State, Roots,
}
use ethlambda.Xmss.{Xmss}
use ethlambda.Stf.Blocks.{is_proposer}
use ethlambda.Storage.Store.{Store, get_state, has_state}
use ethlambda.Storage.Init.{with_state_root}
use ethlambda.Chain.Error.{StoreError}
use ethlambda.Chain.Verify.{verify_signatures}
use ethlambda.Chain.Tick.{get_proposal_head}
use ethlambda.Chain.Import.{check_block}
use ethlambda.Chain.Build.{Built}
use ethlambda.Chain.Build.Accepted.{IsBuilt, build_block-IsBuilt}
use ethlambda.Chain.Produce.{produce_on, produce_at, produce_block_with_signatures}

module _ (S : Ssz) (R : Roots S) (X : Xmss) where
  open R use {block_hash}

  -- The block stands on a state of the store, in the proposer's slot.
  pub record IsProduced (store : Store S) (slot validator_index : ℕ) (block : Block S)
      (proofs : List (AggregatedSignatureProof S)) : Type 0 where
    pub head_root : H256
    pub head_state : State S
    pub post : State S
    pub found : get_state S store head_root ≡ some head_state
    pub proposer : is_proposer validator_index slot (length head_state.validators) ≡ true
    pub built : IsBuilt S R head_state slot validator_index head_root (block, post, proofs)

  produce_at-IsProduced :
      (fuel : ℕ) (store store' : Store S) (head_root : H256) (slot validator_index : ℕ)
      (block : Block S) (proofs : List (AggregatedSignatureProof S))
      → produce_at S R X fuel store head_root slot validator_index ≡ ok (store', ok (block, proofs))
      → IsProduced store' slot validator_index block proofs
  unfolding produce_at produce_on
  produce_at-IsProduced fuel store store' head_root slot validator_index block proofs h =
      elim (Option-cases (get_state S store head_root)) [
        | inl missing ↦ absurd (ground (arith, missing, h))
        | inr (head_state, found) ↦
            on head_state found
              (Bool-cases (is_proposer validator_index slot (length head_state.validators)))
              (produce_on S R X fuel store head_root head_state slot validator_index) refl
      ]
    where
      on :
          (head_state : State S)
          → get_state S store head_root ≡ some head_state
          → (is_proposer validator_index slot (length head_state.validators) ≡ true)
            ⊎ (is_proposer validator_index slot (length head_state.validators) ≡ false)
          → (o : Option (Outcome StoreError (Built S R)))
          → produce_on S R X fuel store head_root head_state slot validator_index ≡ o
          → IsProduced store' slot validator_index block proofs
      on head_state found turn none e = absurd (ground (arith, found, turn, e, h))
      on head_state found turn (some panic) e = absurd (ground (arith, found, turn, e, h))
      on head_state found turn (some (err x)) e = absurd (ground (arith, found, turn, e, h))
      on head_state found turn (some (ok built)) e =
          let same : store ≡ store' = ground (arith, found, turn, e, h) in
          let first : built.0 ≡ block = ground (arith, found, turn, e, h) in
          let last : built.2 ≡ proofs = ground (arith, found, turn, e, h) in
          record {
            head_root = head_root;
            head_state = head_state;
            post = built.1;
            found = ap (λ x. get_state S x head_root) (sym same) ∙ found;
            proposer = ground (arith, found, turn, e, h);
            built =
                rw (← first, ← last)
                  (build_block-IsBuilt S R fuel head_state slot validator_index head_root _ _ _
                    built e);
          }

  -- A block that is produced is the proposer's for the slot, built on a state of the store, and has
  -- one proof for each of its votes. Unless its state is there already, nothing but its signatures
  -- decides whether the store it was produced on accepts it: an import without their verification
  -- passes its tests, to the state after it with the block's state root cached, and one with it
  -- has the same result after the outcome of `verify_signatures` on the block's parent state.
  pub produce_block_with_signatures_ok :
      (fuel : ℕ) (store store' : Store S) (slot validator_index : ℕ) (block : Block S)
      (proofs : List (AggregatedSignatureProof S)) (signed_block : SignedBlockWithAttestation S)
      → produce_block_with_signatures S R X fuel store slot validator_index
        ≡ ok (store', ok (block, proofs))
      → signed_block.message.block ≡ block
      → (produced : IsProduced store' slot validator_index block proofs) × ((has_state S store'
              (block_hash block)
            ≡ true)
          ⊎ ((check_block S R X store' signed_block false
                ≡ ok (some (with_state_root S R produced.post block.state_root)))
              × (check_block S R X store' signed_block true ≡ (
                  verify_signatures S R X produced.head_state signed_block >>= λ t.
                  ok (some (with_state_root S R produced.post block.state_root))))))
  unfolding produce_block_with_signatures check_block
  produce_block_with_signatures_ok fuel store store' slot validator_index block proofs signed_block
        h same =
      let ((found, head_root), ran, h') = >>=-eq-ok (get_proposal_head S R X fuel store slot) _ h in
      let p =
        produce_at-IsProduced fuel found store' head_root slot validator_index block proofs h' in
      (
        p,
        (elim (Bool-cases (has_state S store' (block_hash block))) [
          | inl known ↦ inl known
          | inr fresh ↦
              let parent : get_state S store' block.parent_root ≡ some p.head_state =
                ap (get_state S store') p.built.parent_of ∙ p.found in
              inr (
                rw (same, fresh, parent, p.built.accepted, check_block) refl,
                rw (same, fresh, parent, p.built.accepted, check_block) refl,
              )
        ]),
      )
