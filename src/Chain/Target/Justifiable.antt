-- ===== src/Chain/Target/Justifiable.antt =====
-- The target that a validator votes for can be justified, and is found.
use ethlambda.Base.{
  ℕ, zero, suc, ◌<◌, ◌≤◌, ◌≡◌, refl, ◌⊎◌, inl, inr, true, not, ◌&&◌, some, ltb, nat_eq, arith, ok,
  Bool-cases,
}
use ethlambda.Ssz.{Ssz}
use ethlambda.Types.{H256, BlockHeader, Checkpoint}
use ethlambda.Stf.Justifiable.{slot_is_justifiable_after}
use ethlambda.Storage.Store.{Store, get_block_header, safe_target_slot}
use ethlambda.Chain.Target.{
  Target, parent_of, walk_to_safe, walk_to_justifiable, clamp, get_attestation_target,
  justification_lookback_slots,
}

module _ (S : Ssz) (store : Store S) where
  -- Every stored block above slot `f` has its parent stored, at a lower slot.
  abbrev pub IsLinked : ℕ → Type 0
  IsLinked f =
      (root : H256) (h : BlockHeader)
      → get_block_header S store root ≡ some h
      → f < h.slot
      → (p : BlockHeader) × (get_block_header S store h.parent_root ≡ some p) × (p.slot < h.slot)

  abbrev pub IsStored : Target S store → Type 0
  IsStored t = get_block_header S store t.0 ≡ some t.1

  walk_to_safe_lem :
      (steps f safe_slot : ℕ) (t : Target S store)
      → IsLinked f
      → f ≤ safe_slot
      → IsStored t
      → (u : Target S store) × (walk_to_safe S store steps safe_slot t ≡ ok u)
        × IsStored u
        × (u.1.slot ≤ t.1.slot)
  unfolding walk_to_safe
  walk_to_safe_lem zero f safe_slot t linked le stored = (t, refl, stored, omega arith)
  walk_to_safe_lem (suc steps) f safe_slot t linked le stored =
      elim (Bool-cases (ltb safe_slot t.1.slot)) [
        | inl above ↦
            let (p, found, lower) = linked t.0 t.1 stored (ground arith) in
            let (u, ran, at, below) =
              walk_to_safe_lem steps f safe_slot (t.1.parent_root, p) linked le found in
            (u, rw (above, found, parent_of) ran, at, omega (arith, below, lower))
        | inr reached ↦ (t, rw reached refl, stored, omega arith)
      ]

  walk_to_justifiable_lem :
      (fuel f : ℕ) (t : Target S store)
      → IsLinked f
      → t.1.slot < fuel
      → IsStored t
      → (u : Target S store) × (walk_to_justifiable S store fuel f t ≡ ok u)
        × IsStored u
        × (u.1.slot ≤ t.1.slot)
        × ((u.1.slot ≤ f) ⊎ (slot_is_justifiable_after u.1.slot f ≡ true))
  unfolding walk_to_justifiable
  walk_to_justifiable_lem zero f t linked fits stored = absurd (omega arith)
  walk_to_justifiable_lem (suc fuel) f t linked fits stored =
      elim (Bool-cases (ltb f t.1.slot && not (slot_is_justifiable_after t.1.slot f))) [
        | inl on ↦
            let (p, found, lower) = linked t.0 t.1 stored (ground (arith, on)) in
            let (u, ran, at, below, fine) =
              walk_to_justifiable_lem fuel f (t.1.parent_root, p) linked (omega (arith, lower))
                found in
            (u, rw (on, found, parent_of) ran, at, omega (arith, below, lower), fine)
        | inr stop ↦ (t, rw stop refl, stored, omega arith, ground (arith, stop))
      ]

  -- What a validator votes for: the justified checkpoint, or a stored block that is not behind it,
  -- nor ahead of the head, and whose slot is finalized or may be justified.
  abbrev pub IsTarget : BlockHeader → Checkpoint → Type 0
  IsTarget head c =
      (c ≡ store.metadata.latest_justified)
      ⊎ ((h : BlockHeader) × (get_block_header S store c.root ≡ some h)
          × (h.slot ≡ c.slot)
          × (store.metadata.latest_justified.slot ≤ c.slot)
          × (c.slot ≤ head.slot)
          × ((c.slot ≤ store.metadata.latest_finalized.slot)
              ⊎ (slot_is_justifiable_after c.slot store.metadata.latest_finalized.slot ≡ true)))

  -- With the head and the safe target stored, the safe target not below the finalized slot, every
  -- block above that slot linked to a stored parent of a lower slot, and fuel above the slot of the
  -- head, a target is found without a panic: the justified checkpoint, or a stored block between
  -- it and the head whose slot is finalized or may be justified.
  pub get_attestation_target_lem :
      (fuel safe_slot : ℕ) (head : BlockHeader)
      → IsLinked store.metadata.latest_finalized.slot
      → get_block_header S store store.metadata.head ≡ some head
      → safe_target_slot S store ≡ some safe_slot
      → store.metadata.latest_finalized.slot ≤ safe_slot
      → head.slot < fuel
      → (c : Checkpoint) × (get_attestation_target S store fuel ≡ ok c) × IsTarget head c
  unfolding get_attestation_target clamp
  get_attestation_target_lem fuel safe_slot head linked at_head at_safe le fits =
      let f = store.metadata.latest_finalized.slot in
      let (near, walked, near_stored, near_below) =
        walk_to_safe_lem justification_lookback_slots f safe_slot (store.metadata.head, head) linked
          le at_head in
      let (target, found, stored, below, fine) =
        walk_to_justifiable_lem fuel f near linked (omega (arith, near_below)) near_stored in
      (
        clamp S store target,
        rw (at_head, at_safe, walked, found) refl,
        elim (Bool-cases (ltb target.1.slot store.metadata.latest_justified.slot)) [
          | inl behind ↦ inl (rw behind refl)
          | inr ahead ↦
              rw ahead
                (inr (target.1, stored, refl, ground arith, omega (arith, below, near_below), fine))
        ],
      )
