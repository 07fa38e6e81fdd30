-- ===== src/Chain/Build/Accepted.antt =====
-- A block that is built is accepted on the state it was built on.
use ethlambda.Base.{
  ℕ, ◌≡◌, refl, sym, ◌∙◌, Option, none, some, List, [], ◌∷◌, length, leb, nat_eq, map, arith,
  Outcome, ok, err, panic, ◌≤◌, Bool-cases, Outcome-cases, inl, inr, >>=-eq-ok,
}
use ethlambda.Ssz.{Ssz}
use ethlambda.Types.{
  H256, zero_hash, validator_registry_limit, Attestation, AggregatedAttestation, Block, State,
  Roots,
}
use ethlambda.Stf.Error
use ethlambda.Stf.Blocks.{
  process_slots, process_block, process_block_header, validate_header, update_history, new_header,
  state_transition,
}
use ethlambda.Chain.Error.{StoreError, map_err, state_transition_failed}
use ethlambda.Chain.Build.{
  Proof, Proofs, Built, draft, apply_draft, collect_attestations, select_aggregated_proofs,
  finish_block, build_block,
}

length-map : {A : Type 0} {B : Type 0} (f : A → B) (l : List A) → length (map f l) ≡ length l
length-map f [] = refl
length-map f (x ∷ l) = omega (arith, length-map f l)

module _ (S : Ssz) (R : Roots S) where
  open R use {state_hash}

  -- The block is for the slot, by the proposer, on the parent; it has a proof for each of its votes, at
  -- most as many as fit, and the transition accepts it, with its state root, into the state.
  pub record IsBuilt (head_state : State S) (slot proposer_index : ℕ) (parent_root : H256)
      (b : Built S R) : Type 0 where
    pub slot_of : b.0.slot ≡ slot
    pub proposer_of : b.0.proposer_index ≡ proposer_index
    pub parent_of : b.0.parent_root ≡ parent_root
    pub fits : length b.0.body.attestations ≤ validator_registry_limit
    pub proven : length b.0.body.attestations ≡ length b.2
    pub accepted : state_transition S R head_state b.0 ≡ ok b.1

  same_root :
      (s : State S) (b : Block S) (root : H256)
      → process_block S R s (record b { state_root = root }) ≡ process_block S R s b
  unfolding process_block process_block_header validate_header update_history new_header
  same_root s b root = refl

  map_err-ok :
      {A : Type 0} (o : Outcome Error.Error A) (a : A)
      → map_err state_transition_failed o ≡ ok a
      → o ≡ ok a
  map_err-ok (ok x) a h = cc
  map_err-ok (err e) a h = cc
  map_err-ok panic a h = cc

  apply_draft-accepted :
      (head_state post : State S) (b : Block S)
      → apply_draft S R head_state b ≡ ok post
      → state_transition S R head_state (record b { state_root = state_hash post }) ≡ ok post
  unfolding apply_draft state_transition
  apply_draft-accepted head_state post b h =
      let (advanced, moved, h') =
        >>=-eq-ok (map_err state_transition_failed (process_slots S R head_state b.slot)) _ h in
      let start = map_err-ok (process_slots S R head_state b.slot) advanced moved in
      let done = map_err-ok (process_block S R advanced b) post h' in
      rw (start, same_root advanced b (state_hash post) ∙ done) (ground arith)

  finish_block-IsBuilt :
      (head_state : State S) (slot proposer_index : ℕ) (parent_root : H256)
      (selected : List (AggregatedAttestation S × Proof S R)) (b : Built S R)
      → finish_block S R head_state slot proposer_index parent_root selected ≡ ok b
      → IsBuilt head_state slot proposer_index parent_root b
  unfolding finish_block draft
  finish_block-IsBuilt head_state slot proposer_index parent_root selected b h =
      let attestations = map (λ e. e.0) selected in
      let made : Block S = record {
        slot = slot;
        proposer_index = proposer_index;
        parent_root = parent_root;
        state_root = zero_hash;
        body = record { attestations = attestations };
      } in
      let room = Bool-cases (leb (length attestations) validator_registry_limit) in
      elim (Outcome-cases (apply_draft S R head_state made)) [
        | inl (post, ran) ↦
            let built : Built S R =
              (record made { state_root = state_hash post }, post, map (λ e. e.1) selected) in
            let same : built ≡ b = ground (arith, room, ran, h) in
            let whole : IsBuilt head_state slot proposer_index parent_root built = record {
              slot_of = refl;
              proposer_of = refl;
              parent_of = refl;
              fits = ground (arith, room, h);
              proven = length-map (λ e. e.0) selected ∙ sym (length-map (λ e. e.1) selected);
              accepted = apply_draft-accepted head_state post made ran;
            } in
            rw same at whole
        | inr other ↦ absurd (ground (arith, room, other, h))
      ]

  -- A block that is built is for the given slot, by the given proposer, on the given parent. It has
  -- one proof for each of its votes, which are within the limit, and the transition accepts it, state
  -- root included, on the head state it was built on, into the state that is returned.
  pub build_block-IsBuilt :
      (fuel : ℕ) (head_state : State S) (slot proposer_index : ℕ) (parent_root : H256)
      (available : List Attestation) (known : List H256) (payloads : Proofs S R) (b : Built S R)
      → build_block S R fuel head_state slot proposer_index parent_root available known payloads
        ≡ some (ok b)
      → IsBuilt head_state slot proposer_index parent_root b
  unfolding build_block
  build_block-IsBuilt fuel head_state slot proposer_index parent_root available known payloads b h =
      collected
        (collect_attestations S R fuel head_state slot proposer_index parent_root available known
          payloads [] [])
        refl
    where
      selected :
          (included : List Attestation)
          (o : Option (Outcome StoreError (List (AggregatedAttestation S × Proof S R))))
          → collect_attestations S R fuel head_state slot proposer_index parent_root available known
              payloads [] []
            ≡ some (ok included)
          → select_aggregated_proofs S R included payloads ≡ o
          → IsBuilt head_state slot proposer_index parent_root b
      selected included none e e' = absurd (ground (arith, e, e', h))
      selected included (some (err x)) e e' = absurd (ground (arith, e, e', h))
      selected included (some panic) e e' = absurd (ground (arith, e, e', h))
      selected included (some (ok chosen)) e e' =
          finish_block-IsBuilt head_state slot proposer_index parent_root chosen b
            (ground (arith, e, e', h))

      collected :
          (o : Option (Outcome StoreError (List Attestation)))
          → collect_attestations S R fuel head_state slot proposer_index parent_root available known
              payloads [] []
            ≡ o
          → IsBuilt head_state slot proposer_index parent_root b
      collected none e = absurd (ground (arith, e, h))
      collected (some (err x)) e = absurd (ground (arith, e, h))
      collected (some panic) e = absurd (ground (arith, e, h))
      collected (some (ok included)) e =
          selected included (select_aggregated_proofs S R included payloads) e refl
