-- ===== src/Chain/Import/Accepted.antt =====
-- What an accepted block leaves in the store, and what every import keeps.
use ethlambda.Base.{
  ℕ, ◌+◌, ◌≤◌, ◌≡◌, ◌⊎◌, refl, sym, ap, ◌∙◌, Bool, true, some, List, length, ◌==◌, nat_eq,
  if◌then◌else◌, arith, ok, Bool-cases, inl, inr, lookup, lookup-insert,
}
use ethlambda.Ssz.{Ssz, SszLaws}
use ethlambda.Types.{H256, SignedBlockWithAttestation, State, Roots, historical_roots_limit}
use ethlambda.Xmss.{Xmss}
use ethlambda.Stf.Blocks.Valid.{IsValid}
use ethlambda.Stf.Blocks.Transition.{state_transition-eq-ok}
use ethlambda.Storage.Store.{Store, has_state, get_state}
use ethlambda.Storage.RoundTrip.{NoCollision, get_signed_block-insert}
use ethlambda.Storage.Blocks.{get_signed_block}
use ethlambda.Storage.Init.{with_state_root}
use ethlambda.Chain.Import.{check_block, on_block_core}
use ethlambda.Chain.Import.Frame.{Recorded, later}
use ethlambda.Chain.Import.Result.{Passed, on_block_core-Left}

module _ (S : Ssz) (R : Roots S) (X : Xmss) where
  open R use {block_hash}

  -- The store has the block and the state after it, and every other block and state as before; its
  -- checkpoints are the later ones.
  pub record Holds (store store' : Store S) (b : SignedBlockWithAttestation S) (post : State S)
      : Type 0 where
    pub states :
        (r : H256)
        → get_state S store' r
          ≡ (if block_hash b.message.block == r then some post else get_state S store r)
    pub blocks :
        (r : H256)
        → get_signed_block S R store' r
          ≡ (if block_hash b.message.block == r then some b else get_signed_block S R store r)
    pub justified :
        store'.metadata.latest_justified
        ≡ later store.metadata.latest_justified post.latest_justified
    pub finalized :
        store'.metadata.latest_finalized
        ≡ later store.metadata.latest_finalized post.latest_finalized

  get_state-Recorded :
      (store store' : Store S) (b : SignedBlockWithAttestation S) (post : State S) (r : H256)
      → Recorded S R X store store' b post
      → get_state S store' r
        ≡ (if block_hash b.message.block == r then some post else get_state S store r)
  unfolding get_state
  get_state-Recorded store store' b post r h =
      ap (lookup r) h.states ∙ lookup-insert (block_hash b.message.block) r post store.tables.states

  -- An import that succeeds either finds the state of the block in the store, and leaves the store as
  -- it is; or the block passed all tests on the stored state of its parent, its signatures among
  -- them where they are verified, and then the block and the state the transition leads to, with its
  -- state root cached, are under the block's root, every other block and state is as before, and the
  -- checkpoints are the later of the store's and the state's. The block's body must not share the
  -- empty body's hash by a collision.
  pub on_block_core-ok :
      (fuel : ℕ) (store : Store S) (b : SignedBlockWithAttestation S) (verify : Bool) (ids : List ℕ)
      → NoCollision S R b.message.block.body
      → (on_block_core S R X fuel store b verify ids).1 ≡ ok tt
      → let store' = (on_block_core S R X fuel store b verify ids).0 in
        ((has_state S store (block_hash b.message.block) ≡ true) × (store' ≡ store))
        ⊎ ((post : State S) × Passed S R X store b verify post × Holds store store' b post)
  on_block_core-ok fuel store b verify ids sound h =
      elim (on_block_core-Left S R X fuel store b verify ids) [
        | inl (same, known) ↦ inl (known h, same)
        | inr (post, passed, r) ↦ inr (
          post,
          passed,
          record {
            states = λ root.
                get_state-Recorded store (on_block_core S R X fuel store b verify ids).0 b post root
                  r;
            blocks = λ root.
                r.blocks root
                ∙ (get_signed_block-insert S R store (block_hash b.message.block) root b sound).1;
            justified = r.justified;
            finalized = r.finalized;
          },
        )
      ]

  on_block_core-known :
      (fuel : ℕ) (store : Store S) (b : SignedBlockWithAttestation S) (verify : Bool) (ids : List ℕ)
      → has_state S store (block_hash b.message.block) ≡ true
      → on_block_core S R X fuel store b verify ids ≡ (store, ok tt)
  unfolding on_block_core check_block
  on_block_core-known fuel store b verify ids known = rw (known, on_block_core, check_block) refl

  -- After an import that succeeds, the same block, imported again, with its signatures verified or
  -- not, succeeds and leaves the store as it is.
  on_block_core-again :
      (fuel fuel' : ℕ) (store : Store S) (b : SignedBlockWithAttestation S) (verify verify' : Bool)
      (ids ids' : List ℕ)
      → (on_block_core S R X fuel store b verify ids).1 ≡ ok tt
      → let store' = (on_block_core S R X fuel store b verify ids).0 in
        on_block_core S R X fuel' store' b verify' ids' ≡ (store', ok tt)
  unfolding has_state
  on_block_core-again fuel fuel' store b verify verify' ids ids' h =
      let result = on_block_core S R X fuel store b verify ids in
      let root = block_hash b.message.block in
      on_block_core-known fuel' result.0 b verify' ids'
        (elim (on_block_core-Left S R X fuel store b verify ids) [
          | inl (same, known) ↦ ap (λ x. has_state S x root) same ∙ known h
          | inr (post, passed, r) ↦
              let read = get_state-Recorded store result.0 b post root r in
              ground (arith, nat_eq.beq_iff root root, read)
        ])

  -- Every state of the store is valid.
  pub record AllValid (store : Store S) : Type 0 where
    pub at : (root : H256) (s : State S) → get_state S store root ≡ some s → IsValid S s

  IsValid-with_state_root :
      (s : State S) (root : H256) → IsValid S s → IsValid S (with_state_root S R s root)
  IsValid-with_state_root s root v = record {
    consistent = record {
      history = v.consistent.history;
      window = v.consistent.window;
      finalized_past = v.consistent.finalized_past;
      in_limit = v.consistent.in_limit;
    };
    nonzero = v.nonzero;
    table = v.table;
    registry = v.registry;
  }

  -- Every import, however it ends, keeps all stored states valid, provided that the body's votes
  -- fit into the vote table of the parent's state.
  pub on_block_core-AllValid :
      (L : SszLaws S) (fuel : ℕ) (store : Store S) (b : SignedBlockWithAttestation S)
      (verify : Bool) (ids : List ℕ)
      → ((parent : State S)
          → get_state S store b.message.block.parent_root ≡ some parent
          → length parent.justifications_roots + length b.message.block.body.attestations
            ≤ historical_roots_limit)
      → AllValid store
      → AllValid (on_block_core S R X fuel store b verify ids).0
  on_block_core-AllValid L fuel store b verify ids fits valid = record {
    at = λ root s h. elim (on_block_core-Left S R X fuel store b verify ids) [
      | inl (same, known) ↦ valid.at root s (ap (λ x. get_state S x root) (sym same) ∙ h)
      | inr (post, p, r) ↦
          let read =
            get_state-Recorded store (on_block_core S R X fuel store b verify ids).0 b post root
              r in
          let before = valid.at b.message.block.parent_root p.parent p.found in
          let (_, _, applied, _, _) =
            state_transition-eq-ok S R L p.parent p.result b.message.block before
              (fits p.parent p.found) p.ran in
          elim (Bool-cases (block_hash b.message.block == root)) [
            | inl here ↦
                let same : s ≡ post = ground (arith, here, read, h) in
                rw same (
                  rw (← p.cached)
                    (IsValid-with_state_root p.result b.message.block.state_root applied.valid))
            | inr other ↦ valid.at root s (ground (arith, other, read, h))
          ]
    ];
  }
