-- ===== src/ForkChoice/Weights.antt =====
-- The weight of a block is the number of attestations whose head descends from it.
use ethlambda.Base.{
  ℕ, zero, suc, ◌+◌, ◌<◌, ◌≡◌, ◌↔◌, refl, ap, ◌∙◌, Bool, true, false, none, some, List, [], ◌∷◌,
  ltb, nat_eq, arith, count, nat_beq_iff, if◌then◌else◌, Map, lookup, insert, lookup-insert, map,
  Bool-cases, Option-cases, inl, inr,
}
use ethlambda.Types.{H256, AttestationData}
use ethlambda.ForkChoice.Descent.{
  IsForest, Below, descends, Descends, descends_unknown, descends_known, no_cycle, descends_iff,
}
use ethlambda.ForkChoice.{Blocks, Weights, weight, walk_back, add_weights, compute_block_weights}

walk_fuel : (start slot fuel : ℕ) → ltb start slot ≡ true → slot < suc fuel → 0 < fuel
walk_fuel start slot fuel h lt = ground arith

lt_of_older : (ps slot fuel : ℕ) → ps < slot → slot < suc fuel → ps < fuel
lt_of_older ps slot fuel h k = omega arith

module _ (start_slot : ℕ) (blocks : Blocks) where
  walk_end :
      (fuel : ℕ) (root : H256) (w : Weights)
      → lookup root blocks ≡ none
      → walk_back (suc fuel) start_slot blocks root w ≡ some w
  unfolding walk_back
  walk_end fuel root w h = rw (h, walk_back)

  walk_stop :
      (fuel slot : ℕ) (root parent : H256) (w : Weights)
      → lookup root blocks ≡ some (slot, parent)
      → ltb start_slot slot ≡ false
      → walk_back (suc fuel) start_slot blocks root w ≡ some w
  unfolding walk_back
  walk_stop fuel slot root parent w h e = rw (h, walk_back) (rw e)

  walk_on :
      (fuel slot : ℕ) (root parent : H256) (w : Weights)
      → lookup root blocks ≡ some (slot, parent)
      → ltb start_slot slot ≡ true
      → walk_back (suc fuel) start_slot blocks root w
        ≡ walk_back fuel start_slot blocks parent (insert root (weight w root + 1) w)
  unfolding walk_back
  walk_on fuel slot root parent w h e = rw (h, walk_back) (rw e)

  abbrev one_if : Bool → ℕ
  one_if b = if b then 1 else 0

  -- One walk adds one to the weight of every block that the attested head descends from.
  walk_back_lem :
      (fuel : ℕ) (root : H256) (w : Weights)
      → IsForest blocks
      → 0 < fuel
      → ((s : ℕ) (q : H256) → lookup root blocks ≡ some (s, q) → s < fuel)
      → (w' : Weights) × (walk_back fuel start_slot blocks root w ≡ some w')
        × ((r : H256) → weight w' r ≡ weight w r + one_if (descends fuel start_slot blocks r root))
  walk_back_lem zero root w f pos enough = elim pos [ ]
  walk_back_lem (suc fuel) root w f pos enough = elim (Option-cases (lookup root blocks)) [
    | inl unknown ↦ (
      w,
      walk_end fuel root w unknown,
      λ r. omega (arith, ap one_if (descends_unknown start_slot blocks fuel r root unknown)),
    )
    | inr ((slot, parent), known) ↦
        let step = λ (r : H256). descends_known start_slot blocks fuel slot r root parent known in
        elim (Bool-cases (ltb start_slot slot)) [
          | inr low ↦
              (w, walk_stop fuel slot root parent w known low, λ r. ground (arith, step r, low))
          | inl above ↦
              let w₁ = insert root (weight w root + 1) w in
              let (w', ran, added) =
                walk_back_lem fuel parent w₁ f
                  (walk_fuel start_slot slot fuel above (enough slot parent known))
                  (λ ps pp pknown.
                    lt_of_older ps slot fuel (f.older root parent pp slot ps known pknown)
                      (enough slot parent known)) in
              (
                w',
                walk_on fuel slot root parent w known above ∙ ran,
                λ r. ground (
                  arith,
                  added r,
                  step r,
                  above,
                  lookup-insert root r (weight w root + 1) w,
                  nat_beq_iff root r,
                  no_cycle start_slot blocks fuel slot root parent f known,
                ),
              )
        ]
  ]

  add_first :
      (fuel : ℕ) (a : AttestationData) (attestations : List AttestationData) (w w₁ : Weights)
      → walk_back fuel start_slot blocks a.head.root w ≡ some w₁
      → add_weights fuel start_slot blocks (a ∷ attestations) w
        ≡ add_weights fuel start_slot blocks attestations w₁
  unfolding add_weights
  add_first fuel a attestations w w₁ h = rw (h, add_weights)

  add_weights_lem :
      (fuel : ℕ) (attestations : List AttestationData) (w : Weights)
      → IsForest blocks
      → Below fuel blocks
      → 0 < fuel
      → (w' : Weights) × (add_weights fuel start_slot blocks attestations w ≡ some w')
        × ((r : H256)
            → weight w' r
              ≡ weight w r
                + count (λ a. descends fuel start_slot blocks r a.head.root) attestations)
  unfolding add_weights
  add_weights_lem fuel [] w f b pos = (w, refl, λ r. omega arith)
  add_weights_lem fuel (a ∷ attestations) w f b pos =
      let (w₁, ran, added) =
        walk_back_lem fuel a.head.root w f pos (λ s q known. b.below a.head.root q s known) in
      let (w', rest, more) = add_weights_lem fuel attestations w₁ f b pos in
      (w', add_first fuel a attestations w w₁ ran ∙ rest, λ r. omega (arith, added r, more r))

  -- In a forest of blocks, with fuel above every slot, the weights are computed, and the weight of
  -- a block is the number of attestations whose head is the block or descends from it through
  -- known blocks above the start slot (`descends_iff` says that `descends` is this relation).
  pub compute_block_weights_lem :
      (fuel : ℕ) (attestations : Map ℕ AttestationData)
      → IsForest blocks
      → Below fuel blocks
      → 0 < fuel
      → (w : Weights) × (compute_block_weights fuel start_slot blocks attestations ≡ some w)
        × ((r : H256)
            → weight w r
              ≡ count
                  (λ a. descends fuel start_slot blocks r a.head.root)
                  (map (λ e. e.1) attestations))
        × ((r root : H256)
            → (descends fuel start_slot blocks r root ≡ true) ↔ Descends start_slot blocks r root)
  unfolding compute_block_weights lookup
  compute_block_weights_lem fuel attestations f b pos =
      let (w, ran, added) = add_weights_lem fuel (map (λ e. e.1) attestations) [] f b pos in
      (
        w,
        ran,
        λ r. omega (arith, added r),
        λ r root. descends_iff start_slot blocks fuel r root f b,
      )
