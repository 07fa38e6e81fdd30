-- ===== src/ForkChoice/Descent.antt =====
-- Descent in a forest of blocks: as a relation, and as the test that the weights count.
use ethlambda.Base.{
  ℕ, zero, suc, ◌<◌, ◌≤◌, ◌≡◌, ◌↔◌, Bool, true, false, ◌&&◌, ◌||◌, none, some, ltb, ◌==◌, nat_eq,
  arith, nat_beq_iff, lookup, Bool-cases, Option-cases, inl, inr,
}
use ethlambda.Types.{H256}
use ethlambda.ForkChoice.{Blocks}

-- A block's parent, where it is known, has a lower slot.
pub record IsForest (blocks : Blocks) : Type 0 where
  pub older :
      (root parent pp : H256) (slot pslot : ℕ)
      → lookup root blocks ≡ some (slot, parent)
      → lookup parent blocks ≡ some (pslot, pp)
      → pslot < slot

-- No known block has a slot of `bound` or more.
pub record Below (bound : ℕ) (blocks : Blocks) : Type 0 where
  pub below : (root p : H256) (slot : ℕ) → lookup root blocks ≡ some (slot, p) → slot < bound

-- `target` is `root` or an ancestor of it, through known blocks above `start_slot`.
pub data Descends (start_slot : ℕ) (blocks : Blocks) (target : H256) : H256 → Type 0 where
  self :
      (slot : ℕ) (parent : H256)
      → lookup target blocks ≡ some (slot, parent)
      → start_slot < slot
      → Descends start_slot blocks target target
  via :
      {root : H256} (slot : ℕ) (parent : H256)
      → lookup root blocks ≡ some (slot, parent)
      → start_slot < slot
      → Descends start_slot blocks target parent
      → Descends start_slot blocks target root

-- The test for it, by the same walk.
unfoldable pub descends : ℕ → ℕ → Blocks → H256 → H256 → Bool
descends zero start_slot blocks target root = false
descends (suc fuel) start_slot blocks target root = elim (lookup root blocks) [
  | none ↦ false
  | some (slot, parent) ↦
      ltb start_slot slot && (root == target || descends fuel start_slot blocks target parent)
]

module _ (start_slot : ℕ) (blocks : Blocks) where
  pub descends_unknown :
      (fuel : ℕ) (target root : H256)
      → lookup root blocks ≡ none
      → descends (suc fuel) start_slot blocks target root ≡ false
  unfolding descends
  descends_unknown fuel target root h = rw (h, descends)

  pub descends_known :
      (fuel slot : ℕ) (target root parent : H256)
      → lookup root blocks ≡ some (slot, parent)
      → descends (suc fuel) start_slot blocks target root
        ≡ (ltb start_slot slot && (root == target || descends fuel start_slot blocks target parent))
  unfolding descends
  descends_known fuel slot target root parent h = rw (h, descends)

  descends-Descends :
      (fuel : ℕ) (target root : H256)
      → descends fuel start_slot blocks target root ≡ true
      → Descends start_slot blocks target root
  descends-Descends zero target root h = unfold descends in cc h
  descends-Descends (suc fuel) target root h = elim (Option-cases (lookup root blocks)) [
    | inl unknown ↦ cc (descends_unknown fuel target root unknown)
    | inr ((slot, parent), known) ↦
        let step = descends_known fuel slot target root parent known in
        elim (Bool-cases (root == target)) [
          | inl same ↦
              let e : root ≡ target = (nat_beq_iff root target).0 same in
              rw e (self slot parent (rw e at known) (ground arith))
          | inr other ↦
              via slot parent known (ground arith)
                (descends-Descends fuel target parent (ground arith))
        ]
  ]

  Descends-known :
      {target root : H256}
      → Descends start_slot blocks target root
      → (s : ℕ) × (q : H256) × (lookup root blocks ≡ some (s, q))
  Descends-known (self s q known above) = (s, q, known)
  Descends-known (via s q known above d) = (s, q, known)

  -- A descendant is known, above the start, and of no lower slot.
  Descends-slots :
      {target root : H256} (slot : ℕ) (p : H256)
      → IsForest blocks
      → Descends start_slot blocks target root
      → lookup root blocks ≡ some (slot, p)
      → (t : ℕ) × (q : H256) × (lookup target blocks ≡ some (t, q)) × (t ≤ slot)
  Descends-slots slot p f (self s parent known above) h = (slot, p, h, omega arith)
  Descends-slots slot p f (via s parent known above d) h =
      let (ps, pp, pknown) = Descends-known d in
      let (t, q, e, le) = Descends-slots ps pp f d pknown in
      let lt : ps < s = f.older _ parent pp s ps known pknown in (t, q, e, ground arith)

  Descends-descends :
      {target root : H256} (fuel slot : ℕ) (p : H256)
      → IsForest blocks
      → Descends start_slot blocks target root
      → lookup root blocks ≡ some (slot, p)
      → slot < fuel
      → descends fuel start_slot blocks target root ≡ true
  Descends-descends zero slot p f d h lt = elim lt [ ]
  Descends-descends {target} (suc fuel) slot p f (self s parent known above) h lt =
      ground (arith, descends_known fuel s target target parent known, nat_beq_iff target target)
  Descends-descends {target} {root} (suc fuel) slot p f (via s parent known above d) h lt =
      let (ps, pp, pknown) = Descends-known d in
      let older : ps < s = f.older root parent pp s ps known pknown in
      let same : s ≡ slot = ground arith in
      ground (
        arith,
        descends_known fuel s target root parent known,
        Descends-descends fuel ps pp f d pknown (omega arith),
      )

  -- With fuel above every slot the test decides descent.
  pub descends_iff :
      (fuel : ℕ) (target root : H256)
      → IsForest blocks
      → Below fuel blocks
      → (descends fuel start_slot blocks target root ≡ true)
        ↔ Descends start_slot blocks target root
  descends_iff fuel target root f b = (
    descends-Descends fuel target root,
    λ d.
        let (s, q, known) = Descends-known d in
        Descends-descends fuel s q f d known (b.below root q s known),
  )

  -- A block is not an ancestor of its own parent.
  pub no_cycle :
      (fuel slot : ℕ) (root parent : H256)
      → IsForest blocks
      → lookup root blocks ≡ some (slot, parent)
      → descends fuel start_slot blocks root parent ≡ false
  no_cycle fuel slot root parent f known =
      elim (Bool-cases (descends fuel start_slot blocks root parent)) [
        | inr fine ↦ fine
        | inl cycle ↦ absurd (
            let d = descends-Descends fuel root parent cycle in
            let (ps, pp, pknown) = Descends-known d in
            let (t, q, e, le) = Descends-slots ps pp f d pknown in
            let lt : ps < slot = f.older root parent pp slot ps known pknown in
            let same : slot ≡ t = ground arith in omega arith)
      ]
