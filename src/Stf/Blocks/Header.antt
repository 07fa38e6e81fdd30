-- ===== src/Stf/Blocks/Header.antt =====
-- Which blocks `process_block_header` accepts, and that it keeps the state consistent.
use ethlambda.Base.{
  ℕ, ◌-◌, ◌%◌, ◌<◌, ◌≤◌, ◌≡◌, ◌↔◌, refl, ap, ◌∙◌, arith, leb, ◌==◌, nat_eq, ok, err, Bool-cases,
  inl, inr, length, ◌++◌, ◌∷◌, replicate, length-append, length-replicate, ◌>>=◌, >>=-eq-ok,
}
use mathlib.Core.Path.{ap₂}
use ethlambda.Ssz.{Ssz, SszLaws}
use ethlambda.Types.{zero_hash, State, Block, Roots, H256, historical_roots_limit}
use ethlambda.Stf.Error.{Error, slot_gap_too_large}
use ethlambda.Stf.Invariant.{IsConsistent}
use ethlambda.Stf.JustifiedSlots.{is_slot_justified, extend_to_slot}
use ethlambda.Stf.JustifiedSlots.Laws.{extend_to_slot_lem}
use ethlambda.Stf.Blocks.{
  validate_header, update_history, anchor_genesis, new_header, process_block_header,
}

module _ (S : Ssz) (R : Roots S) where
  open R use {header_hash}

  -- What a block must be to extend the chain of `state`.
  pub record Extends (state : State S) (block : Block S) : Type 0 where
    pub at_slot : block.slot ≡ state.slot
    pub after_parent : state.latest_block_header.slot < block.slot
    pub has_validators : 0 < length state.validators
    pub by_proposer : block.proposer_index ≡ block.slot % length state.validators
    pub on_parent : block.parent_root ≡ header_hash state.latest_block_header

  Extends-validate_header :
      (state : State S) (block : Block S) (root : H256)
      → validate_header S R state block ≡ ok root
      → Extends state block
  unfolding validate_header
  Extends-validate_header state block root h = record {
    at_slot = ground arith;
    after_parent = ground arith;
    has_validators = ground arith;
    by_proposer = ground arith;
    on_parent = ground arith;
  }

  pub validate_header_ok :
      (state : State S) (block : Block S)
      → Extends state block
      → validate_header S R state block ≡ ok (header_hash state.latest_block_header)
  unfolding validate_header
  validate_header_ok state block e = ground arith

module _ (S : Ssz) (R : Roots S) (L : SszLaws S) where
  open S use {iter}
  open R use {header_hash}

  -- What `anchor_genesis` leaves alone.
  anchor_same :
      (state : State S) (root : H256)
      → ((anchor_genesis S R state root).justified_slots ≡ state.justified_slots)
        × ((anchor_genesis S R state root).latest_finalized.slot ≡ state.latest_finalized.slot)
        × ((anchor_genesis S R state root).validators ≡ state.validators)
        × ((anchor_genesis S R state root).justifications_roots ≡ state.justifications_roots)
        × ((anchor_genesis S R state root).justifications_validators
            ≡ state.justifications_validators)
        × ((anchor_genesis S R state root).slot ≡ state.slot)
  unfolding anchor_genesis
  anchor_same state root = elim (Bool-cases (state.latest_block_header.slot == 0)) [
    | inl genesis ↦ rw genesis (refl, refl, refl, refl, refl, refl)
    | inr later ↦ rw later (refl, refl, refl, refl, refl, refl)
  ]

  -- What the updates of a header change, and what they keep.
  pub record Updated (state : State S) (block : Block S) (s' : State S) : Type 0 where
    pub consistent : IsConsistent S s'
    pub header : s'.latest_block_header ≡ new_header S R block
    pub validators : s'.validators ≡ state.validators
    pub finalized : s'.latest_finalized.slot ≡ state.latest_finalized.slot
    pub roots : s'.justifications_roots ≡ state.justifications_roots
    pub votes : s'.justifications_validators ≡ state.justifications_validators
    pub at_slot : s'.slot ≡ state.slot
    pub justified :
        (u : ℕ)
        → is_slot_justified S s'.justified_slots s'.latest_finalized.slot u
          ≡ is_slot_justified S state.justified_slots state.latest_finalized.slot u

  finish :
      (state : State S) (block : Block S) (root : H256)
      → IsConsistent S state
      → state.latest_block_header.slot < block.slot
      → block.slot ≤ historical_roots_limit
      → (slots : S.BitList)
      → extend_to_slot S {E = Error}
          (anchor_genesis S R state root).justified_slots
          (anchor_genesis S R state root).latest_finalized.slot
          (block.slot - 1)
        ≡ ok slots
      → update_history S R state block root
        ≡ ok (record (anchor_genesis S R state root) {
          historical_block_hashes =
              state.historical_block_hashes
              ++ (root ∷ replicate (block.slot - state.latest_block_header.slot - 1) zero_hash);
          justified_slots = slots;
          latest_block_header = new_header S R block;
        })
  unfolding update_history
  finish state block root c after fits slots found = ground (arith, c.history, found)

  update_history_ok :
      (state : State S) (block : Block S) (root : H256)
      → IsConsistent S state
      → state.latest_block_header.slot < block.slot
      → block.slot ≤ historical_roots_limit
      → (s' : State S) × (update_history S R state block root ≡ ok s') × Updated state block s'
  unfolding new_header
  update_history_ok state block root c after fits =
      let a = anchor_genesis S R state root in
      let same = anchor_same state root in
      let (slots, found, size, kept) =
        extend_to_slot_lem S L {E = Error} a.justified_slots a.latest_finalized.slot
          (block.slot - 1) (omega arith) in
      let gap = block.slot - state.latest_block_header.slot - 1 in
      let hashes = state.historical_block_hashes ++ (root ∷ replicate gap zero_hash) in
      let bits = ap (λ b. length (iter b)) same.0 in
      (
        record a {
          historical_block_hashes = hashes;
          justified_slots = slots;
          latest_block_header = new_header S R block;
        },
        finish state block root c after fits slots found,
        record {
          consistent = record {
            history =
                length-append state.historical_block_hashes (root ∷ replicate gap zero_hash)
                ∙ omega (arith, length-replicate gap zero_hash);
            window = ground (arith, size, bits, same.1);
            finalized_past = omega (arith, same.1);
            in_limit = fits;
          };
          header = refl;
          validators = same.2;
          finalized = same.1;
          roots = same.3;
          votes = same.4;
          at_slot = same.5;
          justified = λ u. kept u ∙ ap₂ (λ b f. is_slot_justified S b f u) same.0 same.1;
        },
      )

  -- A slot too far ahead is refused before the history grows.
  gap_refused :
      (state : State S) (block : Block S) (root : H256)
      → IsConsistent S state
      → state.latest_block_header.slot < block.slot
      → historical_roots_limit < block.slot
      → update_history S R state block root
        ≡ err (
            slot_gap_too_large
              (block.slot - state.latest_block_header.slot - 1)
              (length state.historical_block_hashes)
              historical_roots_limit)
  unfolding update_history
  gap_refused state block root c after far = ground (arith, c.history)

  pub accepted :
      (state : State S) (block : Block S)
      → IsConsistent S state
      → (s' : State S) → process_block_header S R state block ≡ ok s'
      → Extends S R state block × (block.slot ≤ historical_roots_limit)
  unfolding process_block_header
  accepted state block c s' h =
      let (root, valid, updated) = >>=-eq-ok (validate_header S R state block) _ h in
      let e = Extends-validate_header S R state block root valid in
      (
        e,
        elim (Bool-cases (leb block.slot historical_roots_limit)) [
          | inl within ↦ ground arith
          | inr far ↦ cc (updated, gap_refused state block root c e.after_parent (ground arith))
        ],
      )

  pub process_block_header_ok :
      (state : State S) (block : Block S)
      → IsConsistent S state
      → Extends S R state block
      → block.slot ≤ historical_roots_limit
      → (s' : State S) × (process_block_header S R state block ≡ ok s') × Updated state block s'
  unfolding process_block_header
  process_block_header_ok state block c e fits =
      let (s', ran, u) =
        update_history_ok state block (header_hash state.latest_block_header) c e.after_parent
          fits in
      (
        s',
        ap (λ o. o >>= update_history S R state block) (validate_header_ok S R state block e) ∙ ran,
        u,
      )

  -- On a consistent state the header of a block is accepted exactly when the block extends the
  -- chain and its slot is within the limit on the history. Under the same condition the state that
  -- follows is consistent, has the block's header, and no slot's justification has changed.
  pub process_block_header_iff :
      (state : State S) (block : Block S)
      → IsConsistent S state
      → (((s' : State S) × (process_block_header S R state block ≡ ok s'))
          ↔ (Extends S R state block × (block.slot ≤ historical_roots_limit)))
        × (((s' : State S) × (process_block_header S R state block ≡ ok s')
              × Updated state block s')
            ↔ (Extends S R state block × (block.slot ≤ historical_roots_limit)))
  process_block_header_iff state block c = (
    (
      (λ r. accepted state block c r.0 r.1),
      (λ e. let (s', ran, u) = process_block_header_ok state block c e.0 e.1 in (s', ran)),
    ),
    ((λ r. accepted state block c r.0 r.1), (λ e. process_block_header_ok state block c e.0 e.1)),
  )
