-- ===== src/Chain/Validation.antt =====
-- `validate_attestation_data` of crates/blockchain/src/store.rs.
use ethlambda.Base.{
  ℕ, ◌+◌, ◌/◌, ◌≤◌, ◌≡◌, ◌↔◌, some, leb, ◌==◌, nat_eq, arith, Outcome, ok, ensure, ok_or, ◌>>=◌,
  ◌>>◌, Option-cases,
}
use ethlambda.Ssz.{Ssz}
use ethlambda.Types.{BlockHeader, Checkpoint, AttestationData}
use ethlambda.Storage.Store.{Store, get_block_header}
use ethlambda.Chain.Error.{
  StoreError, unknown_source_block, unknown_target_block, unknown_head_block, source_exceeds_target,
  head_older_than_target, source_slot_mismatch, target_slot_mismatch, head_slot_mismatch,
  attestation_too_far_in_future,
}

abbrev pub intervals_per_slot : ℕ
intervals_per_slot = 5

module _ (S : Ssz) where
  unfoldable pub validate_attestation_data :
      Store S → AttestationData → Outcome StoreError (Unit {0})
  validate_attestation_data store d = do
    source_header ←
        ok_or (get_block_header S store d.source.root) (unknown_source_block d.source.root)
    target_header ←
        ok_or (get_block_header S store d.target.root) (unknown_target_block d.target.root)
    head_header ← ok_or (get_block_header S store d.head.root) (unknown_head_block d.head.root)
    ensure (leb d.source.slot d.target.slot) source_exceeds_target
    ensure (leb d.target.slot d.head.slot) (head_older_than_target d.head.slot d.target.slot)
    ensure (source_header.slot == d.source.slot)
        (source_slot_mismatch d.source.slot source_header.slot)
    ensure (target_header.slot == d.target.slot)
        (target_slot_mismatch d.target.slot target_header.slot)
    ensure (head_header.slot == d.head.slot) (head_slot_mismatch d.head.slot head_header.slot)
    let current_slot = store.metadata.time / intervals_per_slot
    ensure (leb d.slot (current_slot + 1)) (attestation_too_far_in_future d.slot current_slot)
    ok tt

  -- The checkpoint names a stored block by its root and its slot.
  abbrev pub Names : Store S → Checkpoint → Type 0
  Names store c = (h : BlockHeader) × (get_block_header S store c.root ≡ some h) × (h.slot ≡ c.slot)

  -- A vote passes exactly when its source, target and head name stored blocks, their slots are in
  -- this order, and its own slot is at most one past the slot of the store's time.
  pub validate_attestation_data_iff :
      (store : Store S) (d : AttestationData)
      → (validate_attestation_data store d ≡ ok tt)
        ↔ Names store d.source
          × Names store d.target
          × Names store d.head
          × (d.source.slot ≤ d.target.slot)
          × (d.target.slot ≤ d.head.slot)
          × (d.slot ≤ store.metadata.time / intervals_per_slot + 1)
  unfolding validate_attestation_data
  validate_attestation_data_iff store d =
      let source = Option-cases (get_block_header S store d.source.root) in
      let target = Option-cases (get_block_header S store d.target.root) in
      let head = Option-cases (get_block_header S store d.head.root) in
      (
        (λ passed. ground (arith, source, target, head, passed)),
        (λ ((s, s_found, s_slot), (t, t_found, t_slot), (h, h_found, h_slot), below, above, soon).
            rw (s_found, t_found, h_found, validate_attestation_data)
              (ground (arith, s_slot, t_slot, h_slot, below, above, soon))),
      )
