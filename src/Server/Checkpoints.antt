-- ===== src/Server/Checkpoints.antt =====
-- Blocks from the network never move the checkpoints of the node back.
use ethlambda.Base.{
  remove, nat_eq, ℕ, zero, suc, ◌≤◌, ◌≡◌, refl, ap, sym, ◌∙◌, true, none, some, List, [], ◌∷◌, ◌++◌,
  arith, lookup, Outcome, ok, err, panic, Bool-cases, Option-cases, Outcome-cases, inl, inr,
  >>=-eq-ok,
}
use ethlambda.Ssz.{Ssz}
use ethlambda.Types.{H256, Roots}
use ethlambda.Xmss.{Xmss}
use ethlambda.Storage.Store.{has_state, get_block_header}
use ethlambda.Storage.Blocks.{insert_pending_block, get_signed_block}
use ethlambda.Storage.Prune.{prune_old_data}
use ethlambda.Chain.Target.{OutOfFuel}
use ethlambda.Chain.Error.{StoreError}
use ethlambda.Chain.Import
use ethlambda.Chain.Import.Result.{on_block_core-checkpoints}
use ethlambda.KeyManager.{validator_ids}
use ethlambda.Server.{
  BlockChainServer, Told, Block, Turn, process_block, resolve_missing, register_pending,
  walk_pending, pend_block, queue_children, collect_pending_children, process_or_pend_block,
  run_cascade, on_block,
}

module _ (S : Ssz) (R : Roots S) (X : Xmss) where
  -- The second server's checkpoints are not before those of the first; the time is the same.
  abbrev pub Onward : BlockChainServer S R X → BlockChainServer S R X → Type 0
  Onward a b =
      (a.store.metadata.latest_justified.slot ≤ b.store.metadata.latest_justified.slot)
      × (a.store.metadata.latest_finalized.slot ≤ b.store.metadata.latest_finalized.slot)
      × (b.store.metadata.time ≡ a.store.metadata.time)

  Onward-refl : (a : BlockChainServer S R X) → Onward a a
  Onward-refl a = (omega arith, omega arith, refl)

  Onward-trans : (a b c : BlockChainServer S R X) → Onward a b → Onward b c → Onward a c
  Onward-trans a b c h k = (omega (arith, h.0, k.0), omega (arith, h.1, k.1), k.2 ∙ h.2)

  process_block-Onward :
      (fuel : ℕ) (server server' : BlockChainServer S R X) (b : Block S R X)
      (r : Outcome StoreError (Unit {0}))
      → process_block S R X fuel server b ≡ ok (server', r)
      → Onward server server'
  unfolding process_block Import.on_block
  process_block-Onward fuel server server' b r h =
      let ids = validator_ids S R X server.key_manager in
      let imported = Import.on_block S R X fuel server.store b ids in
      let onward = on_block_core-checkpoints S R X fuel server.store b true ids in
      elim (Outcome-cases imported.1) [
        | inl (t, e) ↦
            let same : record server { store = imported.0 } ≡ server' = ground (arith, e, h) in
            rw (← same) onward
        | inr (inl (x, e)) ↦
            let same : record server { store = imported.0 } ≡ server' = ground (arith, e, h) in
            rw (← same) onward
        | inr (inr e) ↦ absurd (ground (arith, e, h))
      ]

  pub walk_pending-store :
      (fuel : ℕ) (server server' : BlockChainServer S R X) (root : H256)
      (queue queue' : List (Block S R X)) (told : List (Told S R X))
      → walk_pending S R X fuel server root queue ≡ ok (server', queue', told)
      → server'.store ≡ server.store
  unfolding walk_pending register_pending
  walk_pending-store zero server server' root queue queue' told h = absurd cc
  walk_pending-store (suc fuel) server server' root queue queue' told h =
      elim (Option-cases (get_block_header S server.store root)) [
        | inl missing ↦ ground (arith, missing, h)
        | inr (header, found) ↦ elim (Bool-cases (has_state S server.store header.parent_root)) [
          | inl ready ↦
              let block = Option-cases (get_signed_block S R server.store root) in
              ground (arith, found, ready, block, h)
          | inr waiting ↦
              walk_pending-store fuel
                (register_pending S R X server root header.parent_root header.parent_root) server'
                header.parent_root queue queue' told (ground (arith, found, waiting, h))
        ]
      ]

  pend_block-Onward :
      (fuel : ℕ) (server server' : BlockChainServer S R X) (b : Block S R X)
      (queue queue' : List (Block S R X)) (told : List (Told S R X))
      → pend_block S R X fuel server b queue ≡ ok (server', queue', told)
      → Onward server server'
  unfolding pend_block register_pending insert_pending_block
  pend_block-Onward fuel server server' b queue queue' told h =
      let (missing_root, resolved, h') =
        >>=-eq-ok
          (resolve_missing S R X fuel server.pending_block_parents b.message.block.parent_root) _
          h in
      let same = walk_pending-store fuel _ server' missing_root queue queue' told h' in
      rw same (omega arith, omega arith, refl)

  queue_children-store :
      (roots : List H256) (server : BlockChainServer S R X) (queue : List (Block S R X))
      → (queue_children S R X server roots queue).0.store ≡ server.store
  unfolding queue_children
  queue_children-store [] server queue = refl
  queue_children-store (root ∷ roots) server queue =
      queue_children-store roots
        (record server { pending_block_parents = remove root server.pending_block_parents })
        (elim (get_signed_block S R server.store root) [
          | none ↦ queue
          | some child_block ↦ queue ++ (child_block ∷ [])
        ])

  collect_pending_children-store :
      (server : BlockChainServer S R X) (root : H256) (queue : List (Block S R X))
      → (collect_pending_children S R X server root queue).0.store ≡ server.store
  unfolding collect_pending_children
  collect_pending_children-store server root queue =
      elim (Option-cases (lookup root server.pending_blocks)) [
        | inl nothing ↦ simp (nothing, collect_pending_children) refl
        | inr (roots, found) ↦
            simp (found, collect_pending_children) (queue_children-store roots _ queue)
      ]

  process_or_pend_block-Onward :
      (fuel : ℕ) (server server' : BlockChainServer S R X) (b : Block S R X)
      (queue queue' : List (Block S R X)) (told : List (Told S R X))
      → process_or_pend_block S R X fuel server b queue ≡ ok (server', queue', told)
      → Onward server server'
  unfolding process_or_pend_block
  process_or_pend_block-Onward fuel server server' b queue queue' told h =
      elim (Bool-cases (has_state S server.store b.message.block.parent_root)) [
        | inr waiting ↦
            pend_block-Onward fuel server server' b queue queue' told (ground (arith, waiting, h))
        | inl ready ↦
            let ((processed, result), ran, h') =
              >>=-eq-ok (process_block S R X fuel server b) _
                (rw (ready, process_or_pend_block) at h) in
            let onward = process_block-Onward fuel server processed b result ran in
            ended processed result onward h'
      ]
    where
      ended :
          (processed : BlockChainServer S R X) (result : Outcome StoreError (Unit {0}))
          → Onward server processed
          → (elim result as (λ r. Outcome OutOfFuel (Turn S R X)) [
            | ok t ↦ ok (
              (collect_pending_children S R X processed (R.block_hash b.message.block) queue).0,
              (collect_pending_children S R X processed (R.block_hash b.message.block) queue).1,
              [],
            )
            | err e ↦ ok (processed, queue, [])
            | panic ↦ panic
          ])
            ≡ ok (server', queue', told)
          → Onward server server'
      ended processed (ok t) onward h' =
          let collected =
            collect_pending_children S R X processed (R.block_hash b.message.block) queue in
          let same : collected.0 ≡ server' = cc in
          let store =
            collect_pending_children-store processed (R.block_hash b.message.block) queue in
          let last : server'.store ≡ processed.store =
            ap (λ (x : BlockChainServer S R X). x.store) (sym same) ∙ store in
          rw last onward
      ended processed (err e) onward h' = let same : processed ≡ server' = cc in rw (← same) onward
      ended processed panic onward h' = absurd cc

  -- The turns of the loop of `on_block` that a block sets off: after `n` of them, whatever they did
  -- and whether or not more are to come, this server, with this queue. Each turn has its own fuel,
  -- and has not panicked: an import that panics takes the server down.
  pub data Cascade (server : BlockChainServer S R X) (b : Block S R X)
      : ℕ → BlockChainServer S R X → List (Block S R X) → Type 0 where
    arrived : Cascade server b 0 server (b ∷ [])
    turned :
        {n : ℕ} {s s' : BlockChainServer S R X} {next : Block S R X}
        {queue queue' : List (Block S R X)} {told : List (Told S R X)} (fuel : ℕ)
        → Cascade server b n s (next ∷ queue)
        → process_or_pend_block S R X fuel s next queue ≡ ok (s', queue', told)
        → Cascade server b (suc n) s' queue'

  -- At every point of the cascade that a block from the network sets off, as long as no turn has
  -- panicked, and whatever waiting blocks have been set free, imported or refused by then, neither checkpoint of the node's store is at an
  -- earlier slot than before the block, and the store's time is the same. The pruning that ends the
  -- cascade keeps it so.
  pub Cascade-Onward :
      (server : BlockChainServer S R X) (b : Block S R X) (n : ℕ) (server' : BlockChainServer S R X)
      (queue : List (Block S R X))
      → Cascade server b n server' queue
      → Onward server server'
        × Onward server (record server' { store = prune_old_data S server'.store })
  unfolding prune_old_data
  Cascade-Onward server b zero server' queue arrived = (Onward-refl server, Onward-refl server)
  Cascade-Onward server b (suc n) server' queue
        (turned {s = s} {next = next} {queue = before} {told = told} fuel reached ran) =
      let earlier = Cascade-Onward server b n s (next ∷ before) reached in
      let last = process_or_pend_block-Onward fuel s server' next before queue told ran in
      let all = Onward-trans server s server' earlier.0 last in (all, all)

  Cascade-run :
      (turns fuel n : ℕ) (server : BlockChainServer S R X) (b : Block S R X)
      (s done : BlockChainServer S R X) (queue : List (Block S R X)) (told : List (Told S R X))
      → Cascade server b n s queue
      → run_cascade S R X turns fuel s queue ≡ ok (done, told)
      → (m : ℕ) × Cascade server b m done []
  unfolding run_cascade
  Cascade-run turns fuel n server b s done [] told c h =
      let same : s ≡ done = cc in (n, rw (← same) c)
  Cascade-run zero fuel n server b s done (next ∷ queue) told c h = absurd cc
  Cascade-run (suc turns) fuel n server b s done (next ∷ queue) told c h =
      let ((s', queue', here), ran, h') =
        >>=-eq-ok (process_or_pend_block S R X fuel s next queue) _ h in
      let ((last, more), rest, h'') = >>=-eq-ok (run_cascade S R X turns fuel s' queue') _ h' in
      let same : last ≡ done = cc in
      let (m, c') =
        Cascade-run turns fuel (suc n) server b s' last queue' more (turned fuel c ran) rest in
      (m, rw (← same) c')

  -- What `on_block` returns is the end of such a cascade, pruned.
  on_block-Cascade :
      (turns fuel : ℕ) (server server' : BlockChainServer S R X) (b : Block S R X)
      (told : List (Told S R X))
      → on_block S R X turns fuel server b ≡ ok (server', told)
      → (n : ℕ) × (done : BlockChainServer S R X) × Cascade server b n done []
        × (record done { store = prune_old_data S done.store } ≡ server')
  unfolding on_block
  on_block-Cascade turns fuel server server' b told h =
      let ((done, more), ran, h') = >>=-eq-ok (run_cascade S R X turns fuel server (b ∷ [])) _ h in
      let (n, c) = Cascade-run turns fuel 0 server b server done (b ∷ []) more arrived ran in
      (n, done, c, cc)
