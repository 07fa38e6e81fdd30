-- ===== src/Server/Pending.antt =====
-- A block whose parent has no state waits, and the node asks for what is missing.
use ethlambda.Base.{
  ℕ, zero, suc, ◌<◌, ◌≤◌, ◌≡◌, refl, sym, ap, ◌∙◌, ◌⊎◌, inl, inr, Bool, true, false, ◌||◌, some,
  none, List, [], ◌∷◌, ◌++◌, any, any-append, arith, ok, Bool-cases, Option-cases, lookup,
  lookup-insert, unwrap_or, ◌==◌, nat_eq, if◌then◌else◌, Map,
}
use ethlambda.Ssz.{Ssz}
use ethlambda.Types.{H256, BlockHeader, Roots}
use ethlambda.Xmss.{Xmss}
use ethlambda.Storage.Store.{Store, has_state, get_state, get_block_header}
use ethlambda.Storage.Blocks.{insert_pending_block, write_signed_block, header, get_signed_block}
use ethlambda.Storage.RoundTrip.{NoCollision, get_signed_block-insert}
use ethlambda.Server.{
  BlockChainServer, Told, Block, fetch_block, add_root, resolve_missing, register_pending,
  walk_pending, pend_block, process_or_pend_block,
}

any-add_root :
    (r s : H256) (set : List H256)
    → any (λ x. x == s) (add_root r set) ≡ ((r == s) || any (λ x. x == s) set)
any-add_root r s set = elim (Bool-cases (any (λ x. x == r) set)) [
  | inl old ↦ elim (Bool-cases (r == s)) [
    | inl same ↦
        let e : r ≡ s = (nat_eq.beq_iff r s).0 same in
        let found : any (λ x. x == s) set ≡ true = rw e at old in
        simp (old, add_root) (ground (arith, found))
    | inr other ↦ simp (old, add_root) (ground (arith, other))
  ]
  | inr new ↦ simp (new, add_root) (ground (arith, any-append (λ x. x == s) set (r ∷ [])))
]

module _ (S : Ssz) (R : Roots S) (X : Xmss) where
  open R use {block_hash}

  -- The block of root `r` is among those that wait for `p`.
  abbrev pub waits : BlockChainServer S R X → H256 → H256 → Bool
  waits server p r = any (λ x. x == r) (unwrap_or (lookup p server.pending_blocks) [])

  -- Blocks name earlier ones as their parents, as hashes without collisions do, and a block whose
  -- parent has a state is stored whole.
  pub record IsRooted (store : Store S) (parents : Map H256 H256) (rank : H256 → ℕ) : Type 0 where
    pub ancestors : (r a : H256) → lookup r parents ≡ some a → rank a < rank r
    pub headers :
        (r : H256) (h : BlockHeader)
        → get_block_header S store r ≡ some h
        → rank h.parent_root < rank r
    pub whole :
        (r : H256) (h : BlockHeader)
        → get_block_header S store r ≡ some h
        → has_state S store h.parent_root ≡ true
        → (b : Block S R X) × (get_signed_block S R store r ≡ some b)

  -- Either a block that the store has no header of is asked for, or a stored block whose parent has
  -- a state goes to the end of the queue.
  abbrev pub Pursued :
      Store S → List (Block S R X) → List (Block S R X) → List (Told S R X) → Type 0
  Pursued store queue queue' told =
      ((missing : H256) × (told ≡ fetch_block missing ∷ [])
        × (queue' ≡ queue)
        × (get_block_header S store missing ≡ none))
      ⊎ ((ancestor : H256) × (h : BlockHeader) × (b : Block S R X) × (told ≡ [])
          × (queue' ≡ queue ++ (b ∷ []))
          × (get_block_header S store ancestor ≡ some h)
          × (has_state S store h.parent_root ≡ true)
          × (get_signed_block S R store ancestor ≡ some b))

  resolve_missing-ok :
      (fuel : ℕ) (parents : Map H256 H256) (rank : H256 → ℕ) (r : H256)
      → ((s a : H256) → lookup s parents ≡ some a → rank a < rank s)
      → rank r < fuel
      → (m : H256) × (resolve_missing S R X fuel parents r ≡ ok m) × (rank m ≤ rank r)
  unfolding resolve_missing
  resolve_missing-ok zero parents rank r falls enough = absurd (omega arith)
  resolve_missing-ok (suc fuel) parents rank r falls enough =
      elim (Option-cases (lookup r parents)) [
        | inl none_left ↦ (r, rw (resolve_missing, none_left) refl, omega arith)
        | inr (a, found) ↦
            let lower = falls r a found in
            let (m, ran, below) =
              resolve_missing-ok fuel parents rank a falls (omega (arith, lower, enough)) in
            (m, rw (resolve_missing, found) ran, omega (arith, below, lower))
      ]

  waits-register_pending :
      (server : BlockChainServer S R X) (root parent missing : H256)
      → waits (register_pending S R X server root parent missing) parent root ≡ true
  unfolding register_pending
  waits-register_pending server root parent missing =
      let set = unwrap_or (lookup parent server.pending_blocks) [] in
      let own : (parent == parent) ≡ true = ground arith in
      let own' : (root == root) ≡ true = ground arith in
      rw (lookup-insert parent parent (add_root root set) server.pending_blocks, own)
        (any-add_root root root set ∙ rw own' refl)

  still_waits :
      (server : BlockChainServer S R X) (root parent missing p r : H256)
      → waits server p r ≡ true
      → waits (register_pending S R X server root parent missing) p r ≡ true
  unfolding register_pending
  still_waits server root parent missing p r h =
      let set = unwrap_or (lookup parent server.pending_blocks) [] in
      elim (Bool-cases (parent == p)) [
        | inl same ↦
            let e : parent ≡ p = (nat_eq.beq_iff parent p).0 same in
            let h' : any (λ x. x == r) set ≡ true = rw e h in
            rw (lookup-insert parent p (add_root root set) server.pending_blocks, same)
              (any-add_root root r set ∙ ground (arith, h'))
        | inr other ↦ rw (lookup-insert parent p (add_root root set) server.pending_blocks, other) h
      ]

  walk_pending-ok :
      (fuel : ℕ) (server : BlockChainServer S R X) (root : H256) (queue : List (Block S R X))
      (rank : H256 → ℕ)
      → ((r : H256) (h : BlockHeader)
          → get_block_header S server.store r ≡ some h
          → rank h.parent_root < rank r)
      → ((r : H256) (h : BlockHeader)
          → get_block_header S server.store r ≡ some h
          → has_state S server.store h.parent_root ≡ true
          → (b : Block S R X) × (get_signed_block S R server.store r ≡ some b))
      → rank root < fuel
      → (server' : BlockChainServer S R X) × (queue' : List (Block S R X)) × (told : List
          (Told S R X))
        × (walk_pending S R X fuel server root queue ≡ ok (server', queue', told))
        × (server'.store ≡ server.store)
        × ((p r : H256) → waits server p r ≡ true → waits server' p r ≡ true)
        × Pursued server.store queue queue' told
  unfolding walk_pending
  walk_pending-ok zero server root queue rank falls whole enough = absurd (omega arith)
  walk_pending-ok (suc fuel) server root queue rank falls whole enough =
      elim (Option-cases (get_block_header S server.store root)) [
        | inl missing ↦ (
          server,
          queue,
          fetch_block root ∷ [],
          rw (walk_pending, missing) refl,
          refl,
          (λ p r h. h),
          inl (root, refl, refl, missing),
        )
        | inr (h, found) ↦ elim (Bool-cases (has_state S server.store h.parent_root)) [
          | inl ready ↦
              let (b, stored) = whole root h found ready in
              (
                server,
                queue ++ (b ∷ []),
                [],
                rw (walk_pending, found, ready, stored) refl,
                refl,
                (λ p r h. h),
                inr (root, h, b, refl, refl, found, ready, stored),
              )
          | inr waiting ↦
              let next = register_pending S R X server root h.parent_root h.parent_root in
              let lower = falls root h found in
              let (server', queue', told, ran, same, kept, pursued) =
                walk_pending-ok fuel next h.parent_root queue rank falls whole
                  (omega (arith, lower, enough)) in
              (
                server',
                queue',
                told,
                rw (walk_pending, found, waiting) ran,
                same,
                (λ p r w. kept p r (still_waits server root h.parent_root h.parent_root p r w)),
                pursued,
              )
        ]
      ]

  pend_block-ok :
      (fuel : ℕ) (server : BlockChainServer S R X) (b : Block S R X) (queue : List (Block S R X))
      (rank : H256 → ℕ)
      → let block_root = block_hash b.message.block in
        let parent_root = b.message.block.parent_root in
        let store' = insert_pending_block S R server.store block_root b in
        IsRooted store' server.pending_block_parents rank
        → rank parent_root < fuel
        → (server' : BlockChainServer S R X) × (queue' : List (Block S R X)) × (told : List
            (Told S R X))
          × (pend_block S R X fuel server b queue ≡ ok (server', queue', told))
          × (server'.store ≡ store')
          × (waits server' parent_root block_root ≡ true)
          × ((p r : H256) → waits server p r ≡ true → waits server' p r ≡ true)
          × Pursued store' queue queue' told
  unfolding pend_block
  pend_block-ok fuel server b queue rank rooted enough =
      let block_root = block_hash b.message.block in
      let parent_root = b.message.block.parent_root in
      let stored = record server { store = insert_pending_block S R server.store block_root b } in
      let (missing, resolved, below) =
        resolve_missing-ok fuel server.pending_block_parents rank parent_root rooted.ancestors
          enough in
      let registered = register_pending S R X stored block_root parent_root missing in
      let (server', queue', told, ran, same, kept, pursued) =
        walk_pending-ok fuel registered missing queue rank rooted.headers rooted.whole
          (omega (arith, below, enough)) in
      (
        server',
        queue',
        told,
        rw resolved ran,
        same,
        kept parent_root block_root (waits-register_pending stored block_root parent_root missing),
        (λ p r w. kept p r (still_waits stored block_root parent_root missing p r w)),
        pursued,
      )

  get_block_header-insert :
      (store : Store S) (root r : H256) (b : Block S R X)
      → get_block_header S (insert_pending_block S R store root b) r
        ≡ (if root == r then some (header S R b.message.block) else get_block_header S store r)
  unfolding get_block_header insert_pending_block write_signed_block
  get_block_header-insert store root r b =
      lookup-insert root r (header S R b.message.block) store.tables.block_headers

  has_state-insert :
      (store : Store S) (root r : H256) (b : Block S R X)
      → has_state S (insert_pending_block S R store root b) r ≡ has_state S store r
  unfolding has_state get_state insert_pending_block write_signed_block
  has_state-insert store root r b = refl

  parent_of-header :
      (b : Block S R X) → (header S R b.message.block).parent_root ≡ b.message.block.parent_root
  unfolding header
  parent_of-header b = refl

  -- The stored block waits for a state, so it need not be whole itself.
  IsRooted-insert :
      (store : Store S) (parents : Map H256 H256) (rank : H256 → ℕ) (root : H256) (b : Block S R X)
      → NoCollision S R b.message.block.body
      → has_state S store b.message.block.parent_root ≡ false
      → rank b.message.block.parent_root < rank root
      → IsRooted store parents rank
      → IsRooted (insert_pending_block S R store root b) parents rank
  IsRooted-insert store parents rank root b sound waiting lower rooted = record {
    ancestors = rooted.ancestors;
    headers = λ r h found.
        let read = get_block_header-insert store root r b in
        elim (Bool-cases (root == r)) [
          | inl same ↦
              let e : root ≡ r = (nat_eq.beq_iff root r).0 same in
              let own : header S R b.message.block ≡ h = ground (arith, same, read, found) in
              rw (← own, parent_of-header b, ← e) lower
          | inr other ↦ rooted.headers r h (ground (arith, other, read, found))
        ];
    whole = λ r h found ready.
        let read = get_block_header-insert store root r b in
        let ready' : has_state S store h.parent_root ≡ true =
          sym (has_state-insert store root h.parent_root b) ∙ ready in
        elim (Bool-cases (root == r)) [
          | inl same ↦
              let own : header S R b.message.block ≡ h = ground (arith, same, read, found) in
              let of : h.parent_root ≡ b.message.block.parent_root =
                ap (λ (x : BlockHeader). x.parent_root) (sym own) ∙ parent_of-header b in
              absurd (
                let ready'' : has_state S store b.message.block.parent_root ≡ true =
                  rw of at ready' in
                cc)
          | inr other ↦
              let (block, stored) = rooted.whole r h (ground (arith, other, read, found)) ready' in
              (block, (get_signed_block-insert S R store root r b sound).0 ∙ rw other stored)
        ];
  }

  -- A block whose parent has no state is set aside without a panic, whatever other blocks wait
  -- already: it is stored as pending, and nothing else in the store changes; it waits for its parent,
  -- and whatever waited for a block still does; and either a block whose header the store lacks is
  -- asked for, or a stored block whose parent has a state is queued. Enough fuel is any above the
  -- rank of the parent, where every block known, this one included, ranks above its parent and the
  -- waiting ones above the ancestor noted for them. Stored blocks whose parent has a state are whole,
  -- and the block's body does not share the empty body's hash by a collision.
  pub process_or_pend_block-pending :
      (fuel : ℕ) (server : BlockChainServer S R X) (b : Block S R X) (queue : List (Block S R X))
      (rank : H256 → ℕ)
      → IsRooted server.store server.pending_block_parents rank
      → NoCollision S R b.message.block.body
      → has_state S server.store b.message.block.parent_root ≡ false
      → rank b.message.block.parent_root < rank (block_hash b.message.block)
      → rank b.message.block.parent_root < fuel
      → (server' : BlockChainServer S R X) × (queue' : List (Block S R X)) × (told : List
          (Told S R X))
        × (process_or_pend_block S R X fuel server b queue ≡ ok (server', queue', told))
        × (server'.store ≡ insert_pending_block S R server.store (block_hash b.message.block) b)
        × (waits server' b.message.block.parent_root (block_hash b.message.block) ≡ true)
        × ((p r : H256) → waits server p r ≡ true → waits server' p r ≡ true)
        × Pursued server'.store queue queue' told
  unfolding process_or_pend_block
  process_or_pend_block-pending fuel server b queue rank rooted sound waiting lower enough =
      let root = block_hash b.message.block in
      let (server', queue', told, ran, same, own, kept, pursued) =
        pend_block-ok fuel server b queue rank
          (IsRooted-insert server.store server.pending_block_parents rank root b sound waiting lower
            rooted)
          enough in
      (
        server',
        queue',
        told,
        rw (process_or_pend_block, waiting) ran,
        same,
        own,
        kept,
        rw same pursued,
      )
