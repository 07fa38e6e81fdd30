-- ===== src/Stf/Blocks/Transition.antt =====
-- The whole transition: a valid state stays valid, an acceptable block is applied without a panic,
-- and the state that results is the one that the block's state root commits to.
use ethlambda.Base.{
  ok-injective, ℕ, ◌+◌, ◌*◌, ◌<◌, ◌≤◌, ◌≡◌, refl, ap, sym, ◌∙◌, true, false, arith, leb, lt→leb,
  any, ◌==◌, nat_eq, List, if◌then◌else◌, ok, err, Bool-cases, inl, inr, length, >>=-eq-ok,
  nat_beq_iff,
}
use mathlib.Core.Path.{ap₂}
use ethlambda.Ssz.{Ssz, SszLaws}
use ethlambda.Types.{H256, Checkpoint, zero_hash, State, Block, Roots, historical_roots_limit}
use ethlambda.Stf.Error.{state_slot_is_newer, state_root_mismatch}
use ethlambda.Stf.Blocks.{
  cache_state_root, process_slots, process_block_header, process_block, new_header,
  state_transition,
}
use ethlambda.Stf.Blocks.Header.{Extends, Updated, process_block_header_ok, accepted}
use ethlambda.Stf.Blocks.Valid.{IsValid, process_attestations_ok}

module _ (S : Ssz) (R : Roots S) (L : SszLaws S) where
  open R use {state_hash}

  -- What caching the state root and moving the slot leave alone.
  advance-IsValid :
      (s : State S) (target : ℕ)
      → IsValid S s
      → IsValid S (record (cache_state_root S R s) { slot = target })
        × ((cache_state_root S R s).latest_finalized ≡ s.latest_finalized)
        × ((cache_state_root S R s).justifications_roots ≡ s.justifications_roots)
  unfolding cache_state_root
  advance-IsValid s target v =
      let c = v.consistent in
      elim (Bool-cases (s.latest_block_header.state_root == zero_hash)) [
        | inl unset ↦ rw unset (
          record {
            consistent = record {
              history = c.history;
              window = c.window;
              finalized_past = c.finalized_past;
              in_limit = c.in_limit;
            };
            nonzero = v.nonzero;
            table = v.table;
            registry = v.registry;
          },
          refl,
          refl,
        )
        | inr cached ↦ rw cached (
          record {
            consistent = record {
              history = c.history;
              window = c.window;
              finalized_past = c.finalized_past;
              in_limit = c.in_limit;
            };
            nonzero = v.nonzero;
            table = v.table;
            registry = v.registry;
          },
          refl,
          refl,
        )
      ]

  process_slots_late :
      (s : State S) (target : ℕ)
      → leb target s.slot ≡ true
      → process_slots S R s target ≡ err (state_slot_is_newer target s.slot)
  unfolding process_slots
  process_slots_late s target h = rw h

  process_slots_early :
      (s : State S) (target : ℕ)
      → leb target s.slot ≡ false
      → process_slots S R s target ≡ ok (record (cache_state_root S R s) { slot = target })
  unfolding process_slots
  process_slots_early s target h = rw h

  process_slots-eq-ok :
      (s s' : State S) (target : ℕ)
      → process_slots S R s target ≡ ok s'
      → (s' ≡ record (cache_state_root S R s) { slot = target }) × (s.slot < target)
  unfolding process_slots
  process_slots-eq-ok s s' target h = elim (Bool-cases (leb target s.slot)) [
    | inl late ↦ cc (process_slots_late s target late)
    | inr early ↦ (ok-injective (sym h ∙ process_slots_early s target early), ground arith)
  ]

  Updated-IsValid :
      (s s' : State S) (block : Block S) → IsValid S s → Updated S R L s block s' → IsValid S s'
  Updated-IsValid s s' block v u = record {
    consistent = u.consistent;
    nonzero = ap (any (λ root. root == zero_hash)) u.roots ∙ v.nonzero;
    table =
        ap (λ b. length (S.iter b)) u.votes
        ∙ v.table
        ∙ ap₂ (λ (r : List H256) n. length r * length n) (sym u.roots) (sym u.validators);
    registry = omega (arith, ap length u.validators, v.registry);
  }

  -- What a block does to a valid state, whether the block is good or not.
  pub record Applied (s : State S) (block : Block S) (post : State S) : Type 0 where
    pub valid : IsValid S post
    pub at_slot : post.slot ≡ block.slot
    pub header : post.latest_block_header ≡ new_header S R block
    pub finalized : s.latest_finalized.slot ≤ post.latest_finalized.slot

  process_block_ok :
      (s : State S) (block : Block S)
      → IsValid S s
      → Extends S R s block
      → block.slot ≤ historical_roots_limit
      → length s.justifications_roots + length block.body.attestations ≤ historical_roots_limit
      → (post : State S) × (process_block S R s block ≡ ok post) × Applied s block post
  unfolding process_block
  process_block_ok s block v e fits few =
      let (s₁, ran, u) = process_block_header_ok S R L s block v.consistent e fits in
      let (post, done, valid, a) =
        process_attestations_ok S L s₁ block.body.attestations (Updated-IsValid s s₁ block v u)
          (omega (arith, ap length u.roots)) in
      (
        post,
        rw (ran, done),
        record {
          valid = valid;
          at_slot = a.at_slot ∙ u.at_slot ∙ sym e.at_slot;
          header = a.header ∙ u.header;
          finalized = omega (arith, a.finalized, u.finalized);
        },
      )

  -- A later block that extends the chain of a valid state, within the limits on the history and
  -- the vote table, is applied without a panic. It is accepted exactly if its state root is the
  -- hash of the result, which is valid, has the block's slot and header, and whose finalized slot
  -- is not before the old one; otherwise the two roots are reported.
  pub state_transition_ok :
      (s : State S) (block : Block S)
      → IsValid S s
      → s.slot < block.slot
      → Extends S R (record (cache_state_root S R s) { slot = block.slot }) block
      → block.slot ≤ historical_roots_limit
      → length s.justifications_roots + length block.body.attestations ≤ historical_roots_limit
      → (post : State S) × (state_transition S R s block ≡ (
          if block.state_root == state_hash post
          then ok post
          else err (state_root_mismatch block.state_root (state_hash post))))
        × Applied s block post
  unfolding state_transition
  state_transition_ok s block v later e fits few =
      let (v₁, same, roots) = advance-IsValid s block.slot v in
      let s₁ : State S = record (cache_state_root S R s) { slot = block.slot } in
      let (post, ran, a) = process_block_ok s₁ block v₁ e fits (omega (arith, ap length roots)) in
      let start = process_slots_early s block.slot (lt→leb block.slot s.slot later) in
      (
        post,
        rw (start, ran) (ground arith),
        record {
          valid = a.valid;
          at_slot = a.at_slot;
          header = a.header;
          finalized = omega (arith, a.finalized, ap (λ (c : Checkpoint). c.slot) same);
        },
      )

  root_checked :
      (root : H256) (post post' : State S)
      → (if root == state_hash post'
          then ok post'
          else err (state_root_mismatch root (state_hash post')))
        ≡ ok post
      → (root ≡ state_hash post) × (post' ≡ post)
  root_checked root post post' h = elim (Bool-cases (root == state_hash post')) [
    | inl good ↦
        let same : post' ≡ post = ok-injective (rw good at h) in
        ((nat_beq_iff root (state_hash post')).0 good ∙ ap state_hash same, same)
    | inr bad ↦ cc (rw bad at h)
  ]

  transition-Extends :
      (s post : State S) (block : Block S)
      → IsValid S s
      → state_transition S R s block ≡ ok post
      → (s.slot < block.slot)
        × Extends S R (record (cache_state_root S R s) { slot = block.slot }) block
        × (block.slot ≤ historical_roots_limit)
  unfolding state_transition process_block
  transition-Extends s post block v h =
      let (s₁, moved, h₁) = >>=-eq-ok (process_slots S R s block.slot) _ h in
      let (same, later) = process_slots-eq-ok s s₁ block.slot moved in
      let (post', ran, h₂) = >>=-eq-ok (process_block S R s₁ block) _ h₁ in
      let (s₂, headed, h₃) = >>=-eq-ok (process_block_header S R s₁ block) _ ran in
      let s₀ : State S = record (cache_state_root S R s) { slot = block.slot } in
      let headed₀ : process_block_header S R s₀ block ≡ ok s₂ =
        ap (λ x. process_block_header S R x block) (sym same) ∙ headed in
      let c = (advance-IsValid s block.slot v).0.consistent in
      let (e, fits) = accepted S R L s₀ block c s₂ headed₀ in (later, e, fits)

  -- Where the vote table cannot outgrow its limit: a block that the transition accepts from a valid
  -- state is later than the state, extends its chain, is within the limit on the history and carries
  -- the hash of the resulting state. That state is valid, has the block's slot and header, and its
  -- finalized slot is not before the old one.
  pub state_transition-eq-ok :
      (s post : State S) (block : Block S)
      → IsValid S s
      → length s.justifications_roots + length block.body.attestations ≤ historical_roots_limit
      → state_transition S R s block ≡ ok post
      → (s.slot < block.slot)
        × (block.state_root ≡ state_hash post)
        × Applied s block post
        × Extends S R (record (cache_state_root S R s) { slot = block.slot }) block
        × (block.slot ≤ historical_roots_limit)
  state_transition-eq-ok s post block v few h =
      let (later, e, fits) = transition-Extends s post block v h in
      let (post', eq, a) = state_transition_ok s block v later e fits few in
      let (root, same) = root_checked block.state_root post post' (sym eq ∙ h) in
      (later, root, rw same at a, e, fits)
