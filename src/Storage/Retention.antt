-- ===== src/Storage/Retention.antt =====
-- What the pruning of crates/storage/src/store.rs removes, and what it keeps.
use ethlambda.Base.{
  ℕ, ◌≤◌, ◌<◌, ◌≡◌, refl, ◌∙◌, ◌⊎◌, true, false, not, Option, none, some, List, [], ◌∷◌, map,
  length, drop, ltb, leb, any, filter, ◌==◌, nat_eq, pair_eq, if◌then◌else◌, Eq, arith, Map, lookup,
  remove, lookup-remove, unwrap_or, Bool-cases, inl, inr,
}
use ethlambda.Ssz.{Ssz}
use ethlambda.Types.{H256, Checkpoint, BlockHeader, Roots}
use ethlambda.Storage.Store.{Store, delete_batch, get_state}
use ethlambda.Storage.Blocks.{get_signed_block}
use ethlambda.Storage.Prune.{
  keys_before, keys_up_to, expired, prune_live_chain, prune_gossip_signatures,
  prune_attestation_data_by_root, prune_finalized, prune_on_advance, set_checkpoints,
  update_checkpoints, prune_old_states, prune_old_blocks, prune_old_data, states_to_keep,
  blocks_to_keep, sort_newest, header_slots,
}

module _ {ℓ κ} {K : Type ℓ} {V : Type κ} ⦃e : Eq K⦄ where
  pub lookup-delete_batch :
      (k : K) (ks : List K) (m : Map K V)
      → lookup k (delete_batch ks m) ≡ (if any (λ j. j == k) ks then none else lookup k m)
  unfolding delete_batch
  lookup-delete_batch k [] m = refl
  lookup-delete_batch k (j ∷ ks) m =
      ground (arith, lookup-delete_batch k ks (remove j m), lookup-remove j k m)

  -- No key stands twice.
  abbrev pub IsUnique : Map K V → Type (ℓ ⊔ κ)
  IsUnique [] = Unit
  IsUnique ((k, v) ∷ m) = (lookup k m ≡ none) × IsUnique m

any-not_protected :
    (r : H256) (protected l : List H256)
    → any (λ p. p == r) protected ≡ true
    → any (λ j. j == r) (filter (λ q. not (any (λ p. p == q) protected)) l) ≡ false
any-not_protected r protected [] h = refl
any-not_protected r protected (x ∷ l) h =
    ground (arith, any-not_protected r protected l h, nat_eq.beq_iff x r)

any-keys_up_to {ℓ κ} :
    {K : Type ℓ} {V : Type κ} ⦃e : Eq K⦄ (f : ℕ) (slot : V → ℕ) (k : K) (m : Map K V)
    → IsUnique m
    → any (λ j. j == k) (keys_up_to f slot m)
      ≡ elim (lookup k m) [ none ↦ false | some v ↦ leb (slot v) f ]
unfolding keys_up_to lookup
any-keys_up_to f slot k [] h = refl
any-keys_up_to ⦃e⦄ f slot k ((j, v) ∷ m) h =
    ground (arith, e.beq_iff j k, any-keys_up_to f slot k m h.1, h.0)

any-keys_before :
    (f slot : ℕ) (root : H256) (m : Map (ℕ × H256) H256)
    → f ≤ slot
    → any (λ j. j == (slot, root)) (keys_before f m) ≡ false
unfolding keys_before
any-keys_before f slot root [] h = refl
any-keys_before f slot root (((s, r), p) ∷ m) h =
    ground (arith, pair_eq.beq_iff (s, r) (slot, root), any-keys_before f slot root m h)

-- Every slot of the index is at least `s`.
abbrev pub StartsAt : ℕ → Map (ℕ × H256) H256 → Type 0
StartsAt s [] = Unit
StartsAt s (((t, r), p) ∷ m) = (s ≤ t) × StartsAt s m

-- The order in which a backend with sorted keys iterates.
abbrev pub IsSorted : Map (ℕ × H256) H256 → Type 0
IsSorted [] = Unit
IsSorted (((s, r), p) ∷ m) = StartsAt s m × IsSorted m

StartsAt-lookup :
    (s slot : ℕ) (root : H256) (m : Map (ℕ × H256) H256)
    → slot < s
    → StartsAt s m
    → lookup (slot, root) m ≡ none
unfolding lookup
StartsAt-lookup s slot root [] h starts = refl
StartsAt-lookup s slot root (((t, r), p) ∷ m) h starts =
    ground (
      arith,
      pair_eq.beq_iff (t, r) (slot, root),
      StartsAt-lookup s slot root m h starts.1,
      starts.0,
    )

swept :
    (f slot : ℕ) (root : H256) (m : Map (ℕ × H256) H256)
    → slot < f
    → IsSorted m
    → (if any (λ j. j == (slot, root)) (keys_before f m) then none else lookup (slot, root) m)
      ≡ none
unfolding keys_before lookup
swept f slot root [] h sorted = refl
swept f slot root (((s, r), p) ∷ m) h sorted = elim (Bool-cases (ltb s f)) [
  | inl old ↦
      rw old (ground (arith, pair_eq.beq_iff (s, r) (slot, root), swept f slot root m h sorted.1))
  | inr kept ↦ rw kept (
      ground (
        arith,
        pair_eq.beq_iff (s, r) (slot, root),
        StartsAt-lookup s slot root m (ground arith) sorted.0,
      ))
]

-- What a table keeps when the values of slots up to `f` go.
abbrev pub newer_than {ℓ} : {V : Type ℓ} → ℕ → (V → ℕ) → Option V → Option V
newer_than f slot none = none
newer_than f slot (some v) = if leb (slot v) f then none else some v

if-newer_than {ℓ} :
    {V : Type ℓ} (f : ℕ) (slot : V → ℕ) (o : Option V)
    → (if elim o [ none ↦ false | some v ↦ leb (slot v) f ] then none else o) ≡ newer_than f slot o
if-newer_than f slot none = refl
if-newer_than f slot (some v) = refl

lookup-prune_by_slot {ℓ κ} :
    {K : Type ℓ} {V : Type κ} ⦃e : Eq K⦄ (f : ℕ) (slot : V → ℕ) (k : K) (m : Map K V)
    → IsUnique m
    → lookup k (delete_batch (keys_up_to f slot m) m) ≡ newer_than f slot (lookup k m)
lookup-prune_by_slot f slot k m h =
    rw lookup-delete_batch (rw (any-keys_up_to f slot k m h) (if-newer_than f slot (lookup k m)))

module _ (S : Ssz) where
  -- An advance of finalization to `finalized`.
  abbrev pub Pruned : Store S → Store S → Checkpoint → Type 0
  Pruned before after finalized =
      ((key : ℕ × H256)
        → finalized.slot ≤ key.0
        → lookup key after.tables.live_chain ≡ lookup key before.tables.live_chain)
      × (IsSorted before.tables.live_chain
          → (key : ℕ × H256) → key.0 < finalized.slot
          → lookup key after.tables.live_chain ≡ none)
      × ((key : ℕ × H256)
          → lookup key after.tables.gossip_signatures
            ≡ newer_than finalized.slot (λ s. s.slot) (lookup key before.tables.gossip_signatures))
      × ((root : H256)
          → lookup root after.tables.attestation_data_by_root
            ≡ newer_than finalized.slot (λ d. d.slot)
                (lookup root before.tables.attestation_data_by_root))

  prune_finalized_lem :
      (store : Store S) (finalized : Checkpoint)
      → IsUnique store.tables.gossip_signatures
      → IsUnique store.tables.attestation_data_by_root
      → Pruned store (prune_finalized S store finalized.slot) finalized
  unfolding prune_finalized prune_live_chain prune_gossip_signatures prune_attestation_data_by_root
  prune_finalized_lem store finalized unique_signatures unique_data =
      let f = finalized.slot in
      let chain = store.tables.live_chain in
      (
        (λ key kept.
            rw (lookup-delete_batch key (keys_before f chain) chain)
              (rw (any-keys_before f key.0 key.1 chain kept) refl)),
        (λ sorted key old.
            lookup-delete_batch key (keys_before f chain) chain
            ∙ swept f key.0 key.1 chain old sorted),
        (λ key.
            lookup-prune_by_slot f (λ s. s.slot) key store.tables.gossip_signatures
              unique_signatures),
        (λ root.
            lookup-prune_by_slot f (λ d. d.slot) root store.tables.attestation_data_by_root
              unique_data),
      )

  -- Headers, bodies and signatures of blocks, states, and both payload buffers are the same.
  abbrev pub Untouched : Store S → Store S → Type 0
  Untouched before after =
      (after.tables.block_headers ≡ before.tables.block_headers)
      × (after.tables.block_bodies ≡ before.tables.block_bodies)
      × (after.tables.block_signatures ≡ before.tables.block_signatures)
      × (after.tables.states ≡ before.tables.states)
      × (after.new_payloads ≡ before.new_payloads)
      × (after.known_payloads ≡ before.known_payloads)

  prune_on_advance_lem :
      (store : Store S) (old : ℕ) (finalized : Checkpoint)
      → IsUnique store.tables.gossip_signatures
      → IsUnique store.tables.attestation_data_by_root
      → let after = prune_on_advance S old (some finalized) store in
        (after.metadata ≡ store.metadata)
        × (old < finalized.slot → Pruned store after finalized)
        × (finalized.slot ≤ old → after.tables ≡ store.tables)
        × Untouched store after
  unfolding prune_on_advance
  prune_on_advance_lem store old finalized unique_signatures unique_data =
      elim (Bool-cases (ltb old finalized.slot)) [
        | inl advanced ↦ rw advanced (
          refl,
          (λ h. prune_finalized_lem store finalized unique_signatures unique_data),
          (λ h. absurd (ground arith)),
          (refl, refl, refl, refl, refl, refl),
        )
        | inr behind ↦
            rw behind (
              refl,
              (λ h. absurd (ground arith)),
              (λ h. refl),
              (refl, refl, refl, refl, refl, refl),
            )
      ]

  pub update_checkpoints_lem :
      (store : Store S) (head : H256) (justified finalized : Option Checkpoint)
      → IsUnique store.tables.gossip_signatures
      → IsUnique store.tables.attestation_data_by_root
      → let after =
          update_checkpoints S store
            (record { head = head; justified = justified; finalized = finalized }) in
        let latest = unwrap_or finalized store.metadata.latest_finalized in
        (after.metadata ≡ record (store.metadata) {
          head = head;
          latest_justified = unwrap_or justified store.metadata.latest_justified;
          latest_finalized = latest;
        })
        × (store.metadata.latest_finalized.slot < latest.slot → Pruned store after latest)
        × (latest.slot ≤ store.metadata.latest_finalized.slot → after.tables ≡ store.tables)
        × Untouched store after
  unfolding update_checkpoints
  update_checkpoints_lem store head justified none unique_signatures unique_data =
      (refl, (λ h. absurd (omega arith)), (λ h. refl), (refl, refl, refl, refl, refl, refl))
  update_checkpoints_lem store head justified (some finalized) unique_signatures unique_data =
      prune_on_advance_lem
        (record store {
          metadata =
              set_checkpoints store.metadata
                (record { head = head; justified = justified; finalized = some finalized });
        })
        store.metadata.latest_finalized.slot finalized unique_signatures unique_data

module _ (S : Ssz) (R : Roots S) where
  expired-protected :
      (keep : ℕ) (protected : List H256) (headers : Map H256 BlockHeader) (r : H256)
      → any (λ p. p == r) protected ≡ true
      → any (λ j. j == r) (expired keep protected headers) ≡ false
  unfolding expired
  expired-protected keep protected headers r h =
      let sorted = map (λ e. e.0) (drop keep (sort_newest (header_slots headers))) in
      elim (Bool-cases (leb (length (header_slots headers)) keep)) [
        | inl few ↦ rw few refl
        | inr many ↦ rw many (any-not_protected r protected sorted h)
      ]

  -- `prune_old_data` never loses the finalized or the justified block: what the store gave for the
  -- state and for the signed block of either root it still gives.
  pub prune_old_data_keeps :
      (store : Store S) (r : H256)
      → (r ≡ store.metadata.latest_finalized.root) ⊎ (r ≡ store.metadata.latest_justified.root)
      → (get_state S (prune_old_data S store) r ≡ get_state S store r)
        × (get_signed_block S R (prune_old_data S store) r ≡ get_signed_block S R store r)
        × ((prune_old_data S store).tables.live_chain ≡ store.tables.live_chain)
  unfolding get_state get_signed_block prune_old_data prune_old_states prune_old_blocks
  prune_old_data_keeps store r which =
      let roots =
        store.metadata.latest_finalized.root ∷ store.metadata.latest_justified.root ∷ [] in
      let safe : any (λ p. p == r) roots ≡ true = ground (arith, which) in
      let headers = store.tables.block_headers in
      let states_gone = expired states_to_keep roots headers in
      let blocks_gone = expired blocks_to_keep roots headers in
      let kept = expired-protected states_to_keep roots headers r safe in
      let kept' = expired-protected blocks_to_keep roots headers r safe in
      (
        rw (lookup-delete_batch r states_gone store.tables.states, kept) refl,
        rw
            (
              lookup-delete_batch r blocks_gone store.tables.block_headers,
              lookup-delete_batch r blocks_gone store.tables.block_bodies,
              lookup-delete_batch r blocks_gone store.tables.block_signatures,
              kept',
            )
            refl,
        refl,
      )
